-- ===== src/Cli/Commands/Numbers.antt =====
-- How the scale command reads its number.
use consul_scheduler.Prelude.{
  ℕ, ◌≤◌, ◌<◌, pos, String, ◌≡◌, refl, ap, ◌⊎◌, inl, inr, some, [], ◌∷◌, ltb, ltb→lt, ltb→le,
  Bool-cases, Option-cases, show,
}
use consul_scheduler.Prelude.Parse.{parse_int}
use consul_scheduler.Prelude.Parse.Printing.Octal.{octal_of_show, octal_below}
use consul_scheduler.Api.Backend.{SchedulerApi}
use consul_scheduler.Actions.Scale.{scale}
use consul_scheduler.Cli.Commands.{arg, number_error, scale_cmd}

module _ {S : Type 0} (api : SchedulerApi S) where
  -- The scale command with a number in decimal scales the deployment to that number if it is below
  -- 8; from 8 on it fails on the number and writes nothing, or it scales the deployment to a smaller
  -- number.
  pub scale_cmd_cases :
      (name : String) (n : ℕ) (s : S)
      → let done = scale_cmd api (name ∷ show n ∷ []) s in
        ((n < 8) × (done ≡ scale api name (pos n) s))
        ⊎ ((8 ≤ n)
            × ((done ≡ (s, some number_error))
                ⊎ ((m : ℕ) × (m < n) × (done ≡ scale api name (pos m) s))))
  unfolding scale_cmd arg
  scale_cmd_cases name n s = elim (Bool-cases (ltb n 8)) [
    | inl c ↦ inl (ltb→lt n 8 c, rw (octal_below n (ltb→lt n 8 c), scale_cmd) refl)
    | inr c ↦
        let big = ltb→le n 8 c in
        inr (
          big,
          elim (Option-cases (parse_int 8 64 (show n))) [
            | inl e ↦ inl (rw (e, scale_cmd) refl)
            | inr (l, e) ↦
                let (m, is, le, less) = octal_of_show n l e in
                inr (m, less big, rw (e, scale_cmd) (ap (λ i. scale api name i s) is))
          ],
        )
  ]
