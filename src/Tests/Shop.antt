-- ===== src/Tests/Shop.antt =====
-- A shop with two products, a customer's cart, and orders and bookings in several states.
use auto_store_api.Prelude.{ℕ, ℤ, pos, negsuc, true, false, none, some, [], ◌∷◌, String}
use auto_store_api.Models.Sales.{Product, Order, OrderStatus, PaymentStatus, StockMovementReason}
use auto_store_api.Models.Accounts.{MechanicProfileStatus}
use auto_store_api.Models.Installation.{Booking, BookingStatus, QuoteStatus, QuoteLineStatus}
use auto_store_api.Models.Paystack.{PaystackConfig}
use auto_store_api.World.{World}
use auto_store_api.Inventory.{AdjustStockInput}
use auto_store_api.Memory.{memory_platform, empty_db, started}

abbrev pub product : ℕ → ℤ → Product ℤ
product id stock = record {
  id = id;
  price = pos 10;
  stock_quantity = stock;
  low_stock_threshold = pos 5;
  low_stock_notified = false;
  low_stock_alert_cycle = pos 0;
  vendor_id = none;
  installation_eligible = false;
  installation_job_type_id = none;
}

abbrev pub order : ℕ → OrderStatus → PaymentStatus → String → Order ℤ
order id status payment reference = record {
  id = id;
  user_id = 7;
  order_number = "ORD-abcdefgh";
  status = status;
  subtotal = pos 30;
  tax = pos 0;
  shipping_cost = pos 0;
  total = pos 30;
  shipping_address_id = 20;
  billing_address_id = 20;
  payment_method = "paystack";
  payment_status = payment;
  payment_reference = reference;
  paystack_refund_id = "";
}

-- The customer 7 has three of the product 1 and one of the product 2 in the cart.
abbrev pub shop : World memory_platform
shop = started (record empty_db {
  products = product 1 (pos 8) ∷ product 2 (pos 4) ∷ [];
  carts =
      record { id = 50; user_id = 7; product_id = 1; quantity = pos 3 }
      ∷ record { id = 51; user_id = 7; product_id = 2; quantity = pos 1 }
      ∷ [];
  addresses = record { id = 20; user_id = 7 } ∷ [];
})

-- The order 30 of the customer 7 is pending and unpaid, and has three of the product 1; the order 31
-- is confirmed and paid.
abbrev pub shop_orders : World memory_platform
shop_orders = started (record empty_db {
  products = product 1 (pos 5) ∷ [];
  orders =
      order 30 OrderStatus.pending PaymentStatus.pending ""
      ∷ order 31 OrderStatus.confirmed PaymentStatus.paid "order-31"
      ∷ [];
  order_items =
      record {
        id = 60;
        order_id = 30;
        product_id = 1;
        quantity = pos 3;
        unit_price = pos 10;
        total_price = pos 30;
      }
      ∷ [];
})

abbrev pub settings : PaystackConfig
settings = record {
  enabled = true;
  public_key = "public";
  webhook_secret = "secret";
  callback_url = "";
  currency = "NGN";
  split_enabled = true;
  require_split = true;
}

abbrev pub take_three : AdjustStockInput
take_three = record {
  product_id = 1;
  delta = negsuc 2;
  reason = StockMovementReason.adjustment;
  reference_id = none;
  performed_by = some 7;
  notes = "";
}

abbrev pub paid_visit : Booking ℤ
paid_visit = record {
  id = 80;
  quote_id = 72;
  quote_line_id = 73;
  user_id = 7;
  mechanic_profile_id = 40;
  mechanic_user_id = 9;
  status = BookingStatus.confirmed;
  scheduled_at = 100;
  service_city = "";
  labor_total = pos 50;
  parts_total = pos 0;
  platform_fee = pos 5;
  total_amount = pos 55;
  payment_status = PaymentStatus.paid;
  cancellation_reason = "";
}

-- A quote of the customer 7 with a line of the mechanic 9, whose profile is 40; and a booking that is
-- paid, of the same mechanic.
abbrev pub garage : World memory_platform
garage = started (record empty_db {
  profiles =
      record {
        id = 40;
        user_id = 9;
        business_name = "";
        latitude = none;
        longitude = none;
        service_radius_km = pos 10;
        status = MechanicProfileStatus.verified;
        verified_at = none;
        suspended_at = none;
        rejection_reason = "";
        paystack_subaccount_code = "ACCT_1";
      }
      ∷ [];
  quotes =
      record {
        id = 70;
        user_id = 7;
        order_id = none;
        status = QuoteStatus.ready;
        service_city = "";
        expires_at = 90;
      }
      ∷ [];
  quote_lines =
      record {
        id = 71;
        quote_id = 70;
        mechanic_profile_id = 40;
        job_type_id = 1;
        labor_price = pos 50;
        estimated_hours = pos 2;
        mechanic_message = "";
        distance_km = pos 3;
        status = QuoteLineStatus.offered;
      }
      ∷ [];
  bookings = paid_visit ∷ [];
})
