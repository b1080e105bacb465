-- ===== src/Check/Errors.antt =====
-- The error of Check.Execute: what of the command's error and of the handlers' errors it holds,
-- whatever order the handlers' goroutines deliver theirs in.
use mathlib.Core.Logic.{∥∥₁_elim}
use mathlib.Core.List.{Perm, Perm-prop, Permᴰ, append-nil, append_assoc, perm_append_comm}
use mathlib.Core.List.Perm
use gopoller.Common.Tests.{
  ◌≡◌, refl, sym, ◌∙◌, ap, ◌↔◌, ◌≢◌, inl, inr, Option, none, some, Option-cases,
}
use gopoller.Common.Lists.{List, [], ◌∷◌, ◌++◌, All}
use gopoller.Check.Types.{Check, Result, Ref}
use gopoller.Check.Execute.{
  Env, Readings, Handed, execute, close_execution, prepare, run_command, process_all, elements,
  process_handlers, append_all, join_errors, run_result_handler_mutations,
}
use gopoller.Check.Incidents.{started}

module _ {E : Type 0} (env : Env E) where
  -- The errors that an error holds.
  abbrev pub all_listed : Option E → List E
  all_listed none = []
  all_listed (some e) = env.listed e

  all_of : List E → List E
  all_of [] = []
  all_of (e ∷ es) = env.listed e ++ all_of es

  all_listed-append_all :
      (acc : Option E) (es : List E)
      → all_listed (append_all env acc es) ≡ all_listed acc ++ all_of es
  unfolding append_all all_of
  all_listed-append_all acc [] = sym (append-nil (all_listed acc))
  all_listed-append_all none (e ∷ es) =
      all_listed-append_all (some (env.append none e)) es ∙ rw env.listed-append_none
  all_listed-append_all (some a) (e ∷ es) =
      all_listed-append_all (some (env.append (some a) e)) es
      ∙ rw (env.listed-append_some a e) (append_assoc (env.listed a) (env.listed e) (all_of es))

  swap_blocks : (a b c : List E) → Perm (a ++ (b ++ c)) (b ++ (a ++ c))
  swap_blocks a b c =
      rw (← append_assoc a b c, ← append_assoc b a c) (Perm.append_right c (perm_append_comm a b))

  all_of-perm : {es fs : List E} → Permᴰ es fs → Perm (all_of es) (all_of fs)
  unfolding all_of
  all_of-perm Permᴰ.nil = Perm.refl []
  all_of-perm (Permᴰ.cons {a = a} e p) = rw (← e) (Perm.append_left (env.listed a) (all_of-perm p))
  all_of-perm (Permᴰ.swap {a = a} {b = b} {l = l} d e) =
      rw (← d, ← e) (swap_blocks (env.listed a) (env.listed b) (all_of l))
  all_of-perm (Permᴰ.trans p q) = Perm.trans (all_of-perm p) (all_of-perm q)

  -- The errors of the handlers are not compound: each lists itself.
  all_of-process_all :
      (hs : List Ref) (s : Handed) → all_of (process_all env hs s) ≡ process_all env hs s
  unfolding all_of process_all
  all_of-process_all [] s = refl
  all_of-process_all (h ∷ hs) s = elim (Option-cases (env.process h s.check s.result s.incident)) [
    | inl e ↦ rw (e, process_all, all_of) (all_of-process_all hs s)
    | inr (x, e) ↦
        rw (e, process_all, all_of, env.listed-in_handler h x)
          (ap (◌∷◌ (env.in_handler h x)) (all_of-process_all hs s))
  ]

  all_of-arrive : (es : List E) → Perm (all_of (env.arrive es)) (all_of es)
  all_of-arrive es = ∥∥₁_elim (env.arrive_perm es) Perm-prop all_of-perm

  process_handlers-errors :
      (o : Option (List Ref)) (s : Handed)
      → Perm (all_listed (process_handlers env o s)) (process_all env (elements o) s)
  unfolding process_handlers process_all
  process_handlers-errors none s = Perm.refl []
  process_handlers-errors (some hs) s =
      rw (all_listed-append_all none (env.arrive (process_all env hs s))) (
        Perm.trans (all_of-arrive (process_all env hs s))
          (rw (all_of-process_all hs s) (Perm.refl (process_all env hs s))))

  all_listed-join_errors :
      (err e : Option E) → all_listed (join_errors env err e) ≡ all_listed err ++ all_listed e
  unfolding join_errors
  all_listed-join_errors err none = sym (append-nil (all_listed err))
  all_listed-join_errors none (some e) = env.listed-append_none e
  all_listed-join_errors (some a) (some e) = env.listed-append_some a e

  append_all-some : (a : E) (es : List E) → append_all env (some a) es ≢ none
  unfolding append_all
  append_all-some a [] h = cc
  append_all-some a (e ∷ es) h = append_all-some (env.append (some a) e) es h

  append_all-eq-none : (es : List E) → append_all env none es ≡ none → es ≡ []
  unfolding append_all
  append_all-eq-none [] h = refl
  append_all-eq-none (e ∷ es) h = absurd (append_all-some (env.append none e) es h)

  process_handlers-eq-none :
      (o : Option (List Ref)) (s : Handed)
      → (process_handlers env o s ≡ none) ↔ (process_all env (elements o) s ≡ [])
  unfolding process_handlers
  process_handlers-eq-none none s = ((λ h. unfold process_all in refl), (λ h. refl))
  process_handlers-eq-none (some hs) s = (
    (λ h. sym (Perm.nil-eq (rw (append_all-eq-none (env.arrive es) h) at (env.arrive_perm es)))),
    (λ h. rw (h, Perm.eq-nil (env.arrive_perm [])) (unfold append_all in refl)),
  )
    where
      es : List E
      es = process_all env hs s

  join_errors-eq-none :
      (err e : Option E) → (join_errors env err e ≡ none) ↔ ((err ≡ none) × (e ≡ none))
  unfolding join_errors
  join_errors-eq-none err none = ((λ h. (h, refl)), (λ h. h.0))
  join_errors-eq-none err (some e) = ((λ h. absurd (cc)), (λ h. absurd (cc)))

  -- What the handlers are handed once their mutations are done.
  abbrev pub mutated : Readings → Check → Result → Handed
  mutated m c r = run_result_handler_mutations env (prepare env m (started c) r)

  -- The errors that handlers make of the same check, one for each that fails.
  pub data Failures (s : Handed) : List Ref → List E → Type 0 where
    no_handler : Failures s [] []
    succeeds :
        {h : Ref} {hs : List Ref} {es : List E}
        → env.process h s.check s.result s.incident ≡ none
        → Failures s hs es
        → Failures s (h ∷ hs) es
    fails :
        {h : Ref} {hs : List Ref} {es : List E} (e : E)
        → env.process h s.check s.result s.incident ≡ some e
        → Failures s hs es
        → Failures s (h ∷ hs) (env.in_handler h e ∷ es)

  process_all-Failures : (hs : List Ref) (s : Handed) → Failures s hs (process_all env hs s)
  unfolding process_all
  process_all-Failures [] s = no_handler
  process_all-Failures (h ∷ hs) s =
      elim (Option-cases (env.process h s.check s.result s.incident)) [
        | inl e ↦ rw (e, process_all) (succeeds e (process_all-Failures hs s))
        | inr (x, e) ↦ rw (e, process_all) (fails x e (process_all-Failures hs s))
      ]

  -- Every handler processes the check without an error.
  abbrev pub AllProcess : Handed → List Ref → Type 0
  AllProcess s hs = All (λ h. env.process h s.check s.result s.incident ≡ none) hs

  Failures-nil_iff :
      {s : Handed} {hs : List Ref} {es : List E} → Failures s hs es → (es ≡ []) ↔ AllProcess s hs
  Failures-nil_iff no_handler = ((λ h. tt), (λ h. refl))
  Failures-nil_iff (succeeds e f) =
      ((λ h. (e, (Failures-nil_iff f).0 h)), (λ h. (Failures-nil_iff f).1 h.1))
  Failures-nil_iff (fails x e f) = ((λ h. absurd (cc)), (λ h. absurd (cc (e, h.0))))

  -- Once the command has returned a result, Execute returns. The error that it returns holds, in
  -- some order, the errors of the command's error and one error for each handler that fails to
  -- process, and no other; and it returns no error exactly if the command gave none and every
  -- handler processes without one.
  pub execute-errors :
      (m : Readings) (c : Check) (r : Result) (err : Option E)
      → run_command env m (started c) ≡ (some r, err)
      → (c' : Check) × (err' : Option E) × (execute env m c ≡ some (c', err'))
        × (es : List E) × Failures (mutated m c r) (elements (mutated m c r).check.handlers) es
        × Perm (all_listed err') (all_listed err ++ es)
        × ((err' ≡ none)
            ↔ ((err ≡ none) × AllProcess (mutated m c r) (elements (mutated m c r).check.handlers)))
  unfolding execute close_execution
  execute-errors m c r err ran =
      let s = mutated m c r in
      let o = s.check.handlers in
      let (c', err') = close_execution env m err s in
      let e = process_handlers env o s in
      let split = join_errors-eq-none err e in
      let none_failed = process_handlers-eq-none o s in
      let failures = process_all-Failures (elements o) s in
      let all_fine = Failures-nil_iff failures in
      (
        c',
        err',
        rw ran,
        process_all env (elements o) s,
        failures,
        rw (all_listed-join_errors err e)
            (Perm.append_left (all_listed err) (process_handlers-errors o s)),
        (
          (λ h. ((split.0 h).0, all_fine.0 (none_failed.0 (split.0 h).1))),
          (λ h. split.1 (h.0, none_failed.1 (all_fine.1 h.1))),
        ),
      )

  -- A command that returns no result makes Execute panic, before any handler runs.
  pub execute-panic :
      (m : Readings) (c : Check) (err : Option E)
      → run_command env m (started c) ≡ (none, err)
      → execute env m c ≡ none
  unfolding execute
  execute-panic m c err ran = rw ran
