-- ===== src/Build/Errors/Exits.antt =====
-- Errors.py, `convert_to_BuildError`: the status that the program exits with.
use cross_chain.Prelude.{ℕ, ◌≡◌, ◌⊎◌, inl, inr, refl, Option, some}
use cross_chain.Prelude.Int.{ℤ, pos}
use cross_chain.Build.Errors.{
  Status, build_error, explicit_exit, stop, environment_error, other, text, code,
  convert_to_build_error,
}

-- The exit status of a converted error is 2, but for an explicit exit, whose own status it is: an error
-- exits with 0 only after an explicit exit with 0. Converting what was converted gives the same error
-- again, with the exit status 2.
convert_to_build_error-exitstatus :
    (s : Status) (exc : Option ℕ)
    → let b = convert_to_build_error s exc in
      ((b.exitstatus ≡ some (pos 2))
        ⊎ ((e : ℕ) × (status : Option ℤ) × (s ≡ explicit_exit e status)
            × (b.exitstatus ≡ status)
            × (b.status ≡ status)))
      × ((e : ℕ) (exc' : Option ℕ)
          → convert_to_build_error (build_error e b) exc' ≡ record b { exitstatus = some (pos 2) })
unfolding convert_to_build_error
convert_to_build_error-exitstatus (build_error e b) exc = (inl refl, λ e' exc'. refl)
convert_to_build_error-exitstatus (explicit_exit e status) exc =
    (inr (e, status, refl, refl, refl), λ e' exc'. refl)
convert_to_build_error-exitstatus (stop e message) exc = (inl refl, λ e' exc'. refl)
convert_to_build_error-exitstatus (environment_error e strerror errno filename) exc =
    (inl refl, λ e' exc'. refl)
convert_to_build_error-exitstatus (other e class message) exc = (inl refl, λ e' exc'. refl)
convert_to_build_error-exitstatus (text message) exc = (inl refl, λ e' exc'. refl)
convert_to_build_error-exitstatus (code status) exc = (inl refl, λ e' exc'. refl)
