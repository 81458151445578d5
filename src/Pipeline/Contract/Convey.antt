-- ===== src/Pipeline/Contract/Convey.antt =====
-- The handlers of most middlewares: `c.destination = …; await next();`.
use unikvs.Prelude.{Bool, true, false, Option, none, some, ◌≡◌, refl, ap, ◌∙◌}
use unikvs.Prelude.Exec.{Result, ok}
use unikvs.Pipeline.Contract.{
  Fault, Script, finish, raise, assign, await_next, Frame, new_frame, Below, settle, first_next,
  next, set_destination, play, conclude, final_violation, run_middleware,
}

module _ {S V F : Type 0} where
  abbrev pub passed_on : Option (Fault F) → Script S V F
  passed_on none = finish
  passed_on (some e) = raise e

  abbrev pub then_next : Option (Fault F) → Script S V F
  then_next none = await_next passed_on
  then_next (some e) = raise e

  abbrev pub convey : V → Script S V F
  convey d = assign d then_next

module _ {S T V F R : Type 0} (below : Below S T V F R) (aborted : S → Bool) (reason : S → F) where
  abbrev pub conveyed : V → R → Frame V R
  conveyed d r = record {
    destination = some d;
    frozen = true;
    next_called = true;
    next_settled = true;
    called_multiple_times = false;
    violation = none;
    result = some r;
  }

  -- Such a handler goes on with what the part below returns.
  pub run_convey :
      (d : V) (s : S × T) (r : R) (s' : S) (t : T)
      → below d s ≡ (ok r, (s', t))
      → aborted s' ≡ false
      → run_middleware aborted reason below (convey d) s ≡ (ok (conveyed d r), (s', t))
  unfolding run_middleware play next first_next settle set_destination conclude final_violation
  run_convey d s r s' t p a =
      ap
        (λ (o : Result (Fault F) R × (S × T)). conclude aborted reason (
          let (b, f', s') = settle true o (record (new_frame {V = V} {R = R}) {
            destination = some d;
            next_called = true;
            frozen = true;
          }) in
          play below (passed_on b) f' s'))
        p
      ∙ rw (a, conclude) refl
