-- ===== src/Jobs/Store/Keyed.antt =====
-- runtime/async_store_redis.go, async_store_nats.go: what a loop over keys does to the value of each key.
use sdk_api.Base.{
  ℕ, subst, String, ◌≡◌, refl, sym, ap, ◌∙◌, inl, inr, Bool, true, false, ◌||◌, Option, none, some,
  arith, ◌==◌, ==_iff, nat_eq, string_eq, if◌then◌else◌, Bool-cases,
}
use sdk_api.Jobs.Store.{status_eq, JobState, reaped}
use sdk_api.Jobs.Store.Wellformed.{map_found, reap_job}

-- A value at the key `k` itself.
pub if_at {ℓ} :
    {A : Type ℓ} (k j : String) (f : String → A) (x y : A)
    → f k ≡ x
    → (if k == j then x else y) ≡ (if k == j then f j else y)
if_at k j f x y e = elim (Bool-cases (k == j)) [
  | inl same ↦ rw same (sym e ∙ ap f ((==_iff k j).0 same))
  | inr other ↦ rw other refl
]

pub at_itself {ℓ} :
    {A : Type ℓ} (k j : String) (f g : String → A) → f k ≡ g k → g j ≡ (if k == j then f j else g j)
at_itself k j f g e = elim (Bool-cases (k == j)) [
  | inl same ↦ rw same (subst (λ i. g i ≡ f i) ((==_iff k j).0 same) (sym e))
  | inr other ↦ rw other refl
]

-- A second reap at the same time changes nothing.
pub reap_job-reap_job :
    (max_retries now : ℕ) (o : Option JobState)
    → map_found (reap_job max_retries now) (map_found (reap_job max_retries now) o)
      ≡ map_found (reap_job max_retries now) o
unfolding reaped
reap_job-reap_job max_retries now none = refl
reap_job-reap_job max_retries now (some js) = ground arith

-- What is done at most twice to one value, where the second time changes nothing.
pub done_twice {ℓ} :
    {A : Type ℓ} (a b : Bool) (f : A → A) (x y : A)
    → y ≡ (if a then f x else x)
    → f (f x) ≡ f x
    → (if b then f y else y) ≡ (if a || b then f x else x)
done_twice true true f x y e idem = ap f e ∙ idem
done_twice true false f x y e idem = e
done_twice false true f x y e idem = ap f e
done_twice false false f x y e idem = e
