-- ===== src/Request/Final.antt =====
-- The state that a command ends in, whether it returns or crashes.
use libtrustedlo.Platform.{
  Status, no_error, failed_lookup, error, Outcome, Cmd, done, crashed, and_then,
}
use libtrustedlo.Request.{try}

abbrev pub final : {S A : Type 0} → Outcome S A → S
final (done a s) = s
final (crashed e s) = s

module _ {S : Type 0} (P : S → Type 0) where
  pub final-bind :
      {A B : Type 0} (o : Outcome S A) (next : A → Cmd S B)
      → P (final o)
      → ((a : A) (t : S) → P t → P (final (next a t)))
      → P (final (and_then o next))
  final-bind (done a t) next h k = k a t h
  final-bind (crashed e t) next h k = h

  pub final-try :
      (c rest : Cmd S Status) (s : S)
      → P (final (c s))
      → ((t : S) → P t → P (final (rest t)))
      → P (final (try c rest s))
  final-try c rest s h k = final-bind (c s) _ h (λ status t i.
      elim status
        as (λ x. P (
          final (
            (elim x as (λ y. Cmd S Status) [
              | no_error ↦ rest
              | failed_lookup ↦ done failed_lookup
              | error e ↦ done (error e)
            ])
              t))) [ no_error ↦ k t i | failed_lookup ↦ i | error e ↦ i ])
