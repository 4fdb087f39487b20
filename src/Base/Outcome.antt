-- ===== src/Base/Outcome.antt =====
-- What calling a Python function does: it returns, or it raises with a message.
use food_order_system.Base.{◌≡◌, ◌⊎◌, refl, inl, inr, String}

pub data Outcome (V : Type 0) : Type 0 where
  returned : V → Outcome V
  raised : String → Outcome V

pub Outcome-cases :
    {A : Type 0} (o : Outcome A) → ((e : String) × (o ≡ raised e)) ⊎ ((a : A) × (o ≡ returned a))
Outcome-cases (raised e) = inl (e, refl)
Outcome-cases (returned a) = inr (a, refl)
