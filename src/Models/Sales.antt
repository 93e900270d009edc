-- ===== src/Models/Sales.antt =====
-- Products, stock movements, carts, addresses and orders: internal/models/product.go,
-- inventory.go, cart.go, address.go and order.go. A uuid is a number, `uuid.Nil` is 0, a nullable
-- column is an `Option`, a time is a number of ticks, and `F` is the type of `float64`. The records
-- have the columns that the services read or write; gorm's `created_at` and the display texts are
-- left out.
use auto_store_api.Prelude.{ℕ, ℤ, Bool, true, false, Option, String}

-- `Product`
pub record Product (F : Type 0) : Type 0 where
  pub id : ℕ
  pub price : F
  pub stock_quantity : ℤ
  pub low_stock_threshold : ℤ
  pub low_stock_notified : Bool
  pub low_stock_alert_cycle : ℤ
  pub vendor_id : Option ℕ
  pub installation_eligible : Bool
  pub installation_job_type_id : Option ℕ

-- `StockMovementReason`
pub data StockMovementReason : Type 0 where
  order restock adjustment refund cancel : StockMovementReason

-- `StockMovement`
pub record StockMovement : Type 0 where
  pub id : ℕ
  pub product_id : ℕ
  pub delta : ℤ
  pub quantity_after : ℤ
  pub reason : StockMovementReason
  pub reference_id : Option ℕ
  pub performed_by : Option ℕ
  pub notes : String

-- `CartItem`
pub record CartItem : Type 0 where
  pub id : ℕ
  pub user_id : ℕ
  pub product_id : ℕ
  pub quantity : ℤ

-- `Address`
pub record Address : Type 0 where
  pub id : ℕ
  pub user_id : ℕ

-- `OrderStatus`
pub data OrderStatus : Type 0 where
  pending confirmed processing shipped delivered cancelled : OrderStatus

-- `PaymentStatus`
pub data PaymentStatus : Type 0 where
  pending paid failed refunded : PaymentStatus

-- The comparisons of a status with one constant.
abbrev pub is_pending : OrderStatus → Bool
is_pending OrderStatus.pending = true
is_pending _ = false

abbrev pub is_cancelled : OrderStatus → Bool
is_cancelled OrderStatus.cancelled = true
is_cancelled _ = false

abbrev pub is_shipped : OrderStatus → Bool
is_shipped OrderStatus.shipped = true
is_shipped _ = false

abbrev pub is_delivered : OrderStatus → Bool
is_delivered OrderStatus.delivered = true
is_delivered _ = false

abbrev pub is_paid : PaymentStatus → Bool
is_paid PaymentStatus.paid = true
is_paid _ = false

abbrev pub is_unpaid : PaymentStatus → Bool
is_unpaid PaymentStatus.pending = true
is_unpaid _ = false

abbrev pub is_refunded : PaymentStatus → Bool
is_refunded PaymentStatus.refunded = true
is_refunded _ = false

-- `OrderItem`
pub record OrderItem (F : Type 0) : Type 0 where
  pub id : ℕ
  pub order_id : ℕ
  pub product_id : ℕ
  pub quantity : ℤ
  pub unit_price : F
  pub total_price : F

-- `Order`; its items are rows of their own table.
pub record Order (F : Type 0) : Type 0 where
  pub id : ℕ
  pub user_id : ℕ
  pub order_number : String
  pub status : OrderStatus
  pub subtotal : F
  pub tax : F
  pub shipping_cost : F
  pub total : F
  pub shipping_address_id : ℕ
  pub billing_address_id : ℕ
  pub payment_method : String
  pub payment_status : PaymentStatus
  pub payment_reference : String
  pub paystack_refund_id : String
