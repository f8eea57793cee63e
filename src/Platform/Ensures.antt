-- ===== src/Platform/Ensures.antt =====
-- What holds of a command that returns, and where a command may crash.
use libtrustedlo.Platform.{Outcome, Cmd, done, crashed, and_then}

-- If the command returns, its final state satisfies `P`; if it crashes, `C` holds.
abbrev pub Ensures : {S A : Type 0} → Type 0 → (S → Type 0) → Outcome S A → Type 0
Ensures C P (done a s) = P s
Ensures C P (crashed e s) = C

pub Ensures-mono :
    {S A : Type 0} (C : Type 0) (P Q : S → Type 0) (o : Outcome S A)
    → Ensures C P o
    → ((t : S) → P t → Q t)
    → Ensures C Q o
Ensures-mono C P Q (done a s) h k = k s h
Ensures-mono C P Q (crashed e s) h k = h

pub Ensures-bind :
    {S A B : Type 0} (C : Type 0) (P Q : S → Type 0) (o : Outcome S A) (next : A → Cmd S B)
    → Ensures C P o
    → ((a : A) (t : S) → P t → Ensures C Q (next a t))
    → Ensures C Q (and_then o next)
Ensures-bind C P Q (done a s) next h k = k a s h
Ensures-bind C P Q (crashed e s) next h k = h
