-- ===== src/K8s/Delete/Gone.antt =====
-- When DeleteResource takes an object for deleted.
use nativestor.Prelude.{
  ℕ, zero, suc, ◌≤◌, ◌<◌, ◌≡◌, refl, Bool, true, false, List, ◌⊎◌, inl, inr, arith, if◌then◌else◌,
}
use nativestor.Errors.{Error, Result, ok, err, ErrorTests}
use nativestor.Api.{Api, pure}
use nativestor.K8s.Client.{fails_with}
use nativestor.K8s.Delete.{
  WaitOptions, DeleteOptions, retry_count_or_default, verify_each, timed_out, refuse_deletion,
  after_delete, delete_resource,
}

module _ {E : Type 0} (tests : ErrorTests) (delete verify : Api E (Unit {0})) where
  -- the requests after a number of verifications
  abbrev pub visits : ℕ → List E → List E
  visits zero log = log
  visits (suc k) log = visits k (verify log).1

  -- the next verification answers that the object is not found
  abbrev pub gone : List E → Bool
  gone log = fails_with tests.is_not_found (verify log).0

  abbrev pub retries : DeleteOptions → WaitOptions → ℕ
  retries opts default =
      retry_count_or_default opts.wait_options (retry_count_or_default default 30)

  verify_each-of_gone :
      (rounds k : ℕ) (log : List E)
      → k < rounds
      → gone (visits k log) ≡ true
      → (verify_each tests delete verify rounds log).0 ≡ ok true
  unfolding verify_each
  verify_each-of_gone zero k log h g = absurd (omega arith)
  verify_each-of_gone (suc rounds) k log h g =
      by_test (gone log) refl k h g (verify_each-of_gone rounds)
    where
      rest : Api E Bool
      rest = verify_each tests delete verify rounds

      by_test :
          (b : Bool)
          → gone log ≡ b
          → (k : ℕ) → k < suc rounds
          → gone (visits k log) ≡ true
          → ((k : ℕ) (log : List E)
              → k < rounds
              → gone (visits k log) ≡ true
              → (rest log).0 ≡ ok true)
          → ((if b then pure true else rest) (verify log).1).0 ≡ ok true
      by_test true e k h g later = refl
      by_test false e zero h g later = cc
      by_test false e (suc k) h g later = later k (verify log).1 (omega arith) g

  verify_each-gone :
      (rounds : ℕ) (log : List E)
      → (verify_each tests delete verify rounds log).0 ≡ ok true
      → (k : ℕ) × (k < rounds) × (gone (visits k log) ≡ true)
  unfolding verify_each
  verify_each-gone zero log h = cc
  verify_each-gone (suc rounds) log h =
      by_test (gone log) refl h (verify_each-gone rounds (verify log).1)
    where
      rest : Api E Bool
      rest = verify_each tests delete verify rounds

      by_test :
          (b : Bool)
          → gone log ≡ b
          → ((if b then pure true else rest) (verify log).1).0 ≡ ok true
          → ((rest (verify log).1).0 ≡ ok true
              → (k : ℕ) × (k < rounds) × (gone (visits k (verify log).1) ≡ true))
          → (k : ℕ) × (k < suc rounds) × (gone (visits k log) ≡ true)
      by_test true e h later = (0, omega arith, e)
      by_test false e h later = let (k, l, g) = later h in (suc k, omega arith, g)

  -- The loop itself never fails.
  verify_each-ok :
      (rounds : ℕ) (log : List E)
      → (b : Bool) × ((verify_each tests delete verify rounds log).0 ≡ ok b)
  unfolding verify_each
  verify_each-ok zero log = (false, refl)
  verify_each-ok (suc rounds) log = by_test (gone log) (verify_each-ok rounds (verify log).1)
    where
      rest : Api E Bool
      rest = verify_each tests delete verify rounds

      by_test :
          (c : Bool)
          → (b : Bool) × ((rest (verify log).1).0 ≡ ok b)
          → (b : Bool) × (((if c then pure true else rest) (verify log).1).0 ≡ ok b)
      by_test true later = (true, refl)
      by_test false later = later

  refused :
      (must_delete : Bool) (e : Error) (log : List E)
      → (refuse_deletion tests delete verify must_delete e log).0 ≡ ok tt
      → (tests.is_not_found e ≡ true) × (must_delete ≡ false)
  refused true e log h = ground arith
  refused false e log h = ground arith

  module _ (opts : DeleteOptions) (default : WaitOptions) (log : List E)
      (waits : opts.wait_options.wait ≡ true) where
    -- If the object is deleted, and one of the verifications, of which there is one more than the
    -- retries that the options or the defaults give, answers that it is not found, then a
    -- DeleteResource that is to wait succeeds.
    pub delete_resource-succeeds :
        (k : ℕ)
        → (delete log).0 ≡ ok tt
        → k ≤ retries opts default
        → gone (visits k (delete log).1) ≡ true
        → (delete_resource tests delete verify opts default log).0 ≡ ok tt
    unfolding delete_resource
    delete_resource-succeeds k deleted l g = rw (deleted, waits, found) refl
      where
        found :
            (verify_each tests delete verify (suc (retries opts default)) (delete log).1).0
            ≡ ok true
        found = verify_each-of_gone (suc (retries opts default)) k (delete log).1 (omega arith) g

    -- If a DeleteResource that is to wait, and to report a timeout, succeeds, then the object was not
    -- there to delete, and did not have to be, or one of the verifications answers that it is not
    -- found.
    pub delete_resource-gone :
        opts.wait_options.error_on_timeout ≡ true
        → (delete_resource tests delete verify opts default log).0 ≡ ok tt
        → ((fails_with tests.is_not_found (delete log).0 ≡ true) × (opts.must_delete ≡ false))
          ⊎ ((k : ℕ) × (k ≤ retries opts default) × (gone (visits k (delete log).1) ≡ true))
    unfolding delete_resource
    delete_resource-gone reports h = by_answer (delete log).0 refl h
      where
        later : List E
        later = (delete log).1

        Goal : Type 0
        Goal =
            ((fails_with tests.is_not_found (delete log).0 ≡ true) × (opts.must_delete ≡ false))
            ⊎ ((k : ℕ) × (k ≤ retries opts default) × (gone (visits k later) ≡ true))

        waited :
            (b : Bool)
            → (verify_each tests delete verify (suc (retries opts default)) later).0 ≡ ok b
            → timed_out tests delete verify b true ≡ ok tt
            → (k : ℕ) × (k ≤ retries opts default) × (gone (visits k later) ≡ true)
        waited true e h =
            let (k, l, g) = verify_each-gone (suc (retries opts default)) later e in
            (k, omega arith, g)
        waited false e h = cc

        by_answer :
            (r : Result (Unit {0}))
            → (delete log).0 ≡ r
            → (after_delete tests delete verify opts default r later).0 ≡ ok tt
            → Goal
        by_answer (ok done) e h =
            let (b, v) = verify_each-ok (suc (retries opts default)) later in
            inr (waited b v (rw (waits, v, reports) at h))
        by_answer (err f) e h = inl (rw e (refused opts.must_delete f later h))
