-- ===== src/Chat/Service/Rate.antt =====
-- The rate limits of the chat: they write to Redis alone, and refuse a call once the counter is over the limit.
use auto_store_api.Prelude.{
  ℕ, ℤ, ◌≡◌, refl, Bool, true, false, Option, none, some, String, Result, ok, err,
}
use auto_store_api.Platform.{Platform}
use auto_store_api.World.{World, Error, Returns, pure-Returns, message_rate_limit}
use auto_store_api.Chat.Identity.{ChatConfig, is_one}
use auto_store_api.Chat.Service.{count_call, check_rate, check_message_rate, over}

module _ (p : Platform) where
  -- Only Redis may have changed.
  pub count_call_store :
      (key : String) (ttl : ℕ) (w : World p)
      → (count_call p key ttl w).1 ≡ record w { store = (count_call p key ttl w).1.store }
  unfolding count_call
  count_call_store key ttl w = go (p.redis.configured) (p.redis.incr key w.store)
    where
      go :
          (b : Bool) (r : Result String (ℤ × p.redis.Store))
          → let c : Option ℤ × World p = elim b [
            | false ↦ (none, w)
            | true ↦ elim r [
              | ok (n, s) ↦ (
                some n,
                record w {
                  store = elim (is_one n) [ true ↦ p.redis.expire key ttl s | false ↦ s ];
                },
              )
              | err _ ↦ (none, w)
            ]
          ] in
            c.1 ≡ record w { store = c.1.store }
      go false r = refl
      go true (ok (n, s)) = refl
      go true (err e) = refl

  pub check_message_rate-Returns :
      (cfg : ChatConfig) (key : Option String) (w : World p)
      → Returns (λ _ v. v ≡ record w { store = v.store }) (check_message_rate p cfg key w)
  unfolding check_message_rate check_rate Returns
  check_message_rate-Returns cfg none w = pure-Returns _ _ w refl
  check_message_rate-Returns cfg (some key) w =
      go (over p (count_call p key 60 w).0 cfg.message_rate_limit_per_m)
    where
      go :
          (b : Bool)
          → let c : Result Error Unit × World p = (
            elim b [ true ↦ err message_rate_limit | false ↦ ok tt ],
            (count_call p key 60 w).1,
          ) in
            Returns (λ _ v. v ≡ record w { store = v.store }) c
      go true = tt
      go false = count_call_store key 60 w
