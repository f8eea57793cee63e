-- ===== src/Request/Accepted.antt =====
-- What holds of a command that returns without an error.
use libtrustedlo.Platform.{
  Status, no_error, failed_lookup, error, Outcome, Cmd, done, crashed, and_then,
}
use libtrustedlo.Request.{try}

-- Where the command returns without an error, its final state satisfies `P`.
abbrev pub Accepted : {S : Type 0} → (S → Type 0) → Outcome S Status → Type 0
Accepted P (done no_error s) = P s
Accepted P (done failed_lookup s) = Unit {0}
Accepted P (done (error e) s) = Unit {0}
Accepted P (crashed e s) = Unit {0}

pub Accepted-mono :
    {S : Type 0} (P Q : S → Type 0) (o : Outcome S Status)
    → Accepted P o
    → ((t : S) → P t → Q t)
    → Accepted Q o
Accepted-mono P Q (done no_error s) h k = k s h
Accepted-mono P Q (done failed_lookup s) h k = tt
Accepted-mono P Q (done (error e) s) h k = tt
Accepted-mono P Q (crashed e s) h k = tt

pub Accepted-try :
    {S : Type 0} (P Q : S → Type 0) (first rest : Cmd S Status) (s : S)
    → Accepted P (first s)
    → ((t : S) → P t → Accepted Q (rest t))
    → Accepted Q (try first rest s)
Accepted-try P Q first rest s h k = go (first s) h
  where
    go :
        (o : Outcome _ Status)
        → Accepted P o
        → Accepted Q (
            and_then o (λ status. elim status [
              | no_error ↦ rest
              | failed_lookup ↦ done failed_lookup
              | error e ↦ done (error e)
            ]))
    go (done no_error t) a = k t a
    go (done failed_lookup t) a = tt
    go (done (error e) t) a = tt
    go (crashed e t) a = tt
