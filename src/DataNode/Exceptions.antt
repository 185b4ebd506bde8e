-- ===== src/DataNode/Exceptions.antt =====
-- The exceptions that the data node's threads can raise. None of them is caught above a component's
-- `run`, so one that escapes a handler ends the process.
use di_traffic_database.Common.{◌≡◌, refl, ap, ◌≢◌, ◌⊎◌, inl, inr}

pub data Exception : Type 0 where
  invalid_argument : Exception
  out_of_range : Exception
  runtime_error : Exception
  json_error : Exception
  bad_variant_access : Exception
  -- a null pointer used, which C++ leaves undefined
  null_dereference : Exception
  -- an index past the end of a vector, which C++ leaves undefined
  index_past_end : Exception

pub data Try {ℓ} (A : Type ℓ) : Type ℓ where
  ok : A → Try A
  thrown : Exception → Try A

infixl 5 ◌>>=◌
abbrev pub ◌>>=◌ {ℓ κ} : {A : Type ℓ} {B : Type κ} → Try A → (A → Try B) → Try B
ok a >>= f = f a
thrown e >>= f = thrown e

value_or {ℓ} : {A : Type ℓ} → A → Try A → A
value_or d (ok a) = a
value_or d (thrown e) = d

pub ok-injective {ℓ} : {A : Type ℓ} {a b : A} → ok a ≡ ok b → a ≡ b
unfolding value_or
ok-injective {a = a} e = ap (value_or a) e

pub Try-cases {ℓ} :
    {A : Type ℓ} (t : Try A) → ((a : A) × (t ≡ ok a)) ⊎ ((e : Exception) × (t ≡ thrown e))
Try-cases (ok a) = inl (a, refl)
Try-cases (thrown e) = inr (e, refl)

pub thrown-ne-ok {ℓ} : {A : Type ℓ} {x : Exception} {a : A} → thrown x ≢ ok a
thrown-ne-ok e = cc
