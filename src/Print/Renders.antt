-- ===== src/Print/Renders.antt =====
-- `tsldr_miscutil_dbg_print` on a well-formed format.
use libtrustedlo.Prelude.{
  ℕ, zero, suc, ◌+◌, ◌≡◌, ◌≢◌, ◌≤◌, ◌<◌, ◌∙◌, sym, Option, none, some, List, [], ◌∷◌, ◌++◌, length,
  arith,
}
use libtrustedlo.Memory.{Memory, load}
use libtrustedlo.Print.Format.{
  Call, dbg_putc, Conversion, conversion, convert, int_precision, print_one, dbg_print,
  printed_behind, directive, read_precision, read_length, switch_on,
}
use libtrustedlo.Print.Spelling.{
  no_precision, star, digits, Piece, plain, percent, directive_of, digit_chars, spell_size,
  spell_all, ArePieces, Holds, conversion-IsLetter, joined, render, takes, decimal, AreWords,
}
use libtrustedlo.Print.Defined.{render_defined}
use libtrustedlo.Print.Directives.{
  Reads, read_no_precision, read_star, read_digits, print_one-directive,
}

length-digits : (ds rest : List ℕ) → length (digit_chars ds ++ rest) ≡ length ds + length rest
length-digits [] rest = omega arith
length-digits (d ∷ ds) rest = omega (arith, length-digits ds rest)

length-spell_size : (size : ℕ) (rest : List ℕ) → length (spell_size size rest) ≡ size + length rest
length-spell_size zero rest = omega arith
length-spell_size (suc size) rest = omega (arith, length-spell_size size rest)

ruleset lengths = (arith, length-digits, length-spell_size)

-- A round of the loop, from what it prints.
dbg_print-step :
    (m : Memory) (n f g : ℕ) (args args' : List ℕ) (calls rest : Option (List Call))
    → load m f ≢ 0
    → print_one m n f args ≡ printed_behind g args' calls
    → dbg_print m n g args' ≡ rest
    → dbg_print m (suc n) f args ≡ joined calls rest
unfolding dbg_print
dbg_print-step m n f g args args' none rest live run more = ground (arith, live, run)
dbg_print-step m n f g args args' (some calls) rest live run more = ground (arith, live, run, more)

plain_step :
    (m : Memory) (n f c : ℕ) (args : List ℕ)
    → c ≢ b'%'
    → load m f ≡ c
    → print_one m n f args ≡ printed_behind (f + 1) args (some (dbg_putc c ∷ []))
unfolding print_one
plain_step m n f c args other e = ground (arith, e, other)

percent_step :
    (m : Memory) (n f : ℕ) (args : List ℕ)
    → load m f ≡ b'%'
    → load m (f + 1) ≡ b'%'
    → print_one m n f args ≡ printed_behind (f + 1 + 1) args (some (dbg_putc b'%' ∷ []))
unfolding print_one directive read_precision read_length switch_on conversion
percent_step m n f args e e' = ground (arith, e, e')

module _ (m : Memory) where
  directive_step :
      (size c n f w : ℕ) (kind : Conversion) (precision : Option ℕ) (args args' : List ℕ)
      (pieces : List Piece)
      → size ≤ 2
      → conversion c ≡ some kind
      → load m f ≡ b'%'
      → Reads m n (f + 1) args precision (w ∷ args') (spell_size size (c ∷ spell_all pieces))
      → ((g : ℕ) → Holds m g (spell_all pieces) → dbg_print m n g args' ≡ render m pieces args')
      → dbg_print m (suc n) f args
        ≡ joined (convert m kind precision size w) (render m pieces args')
  directive_step size c n f w kind precision args args' pieces le letter e read next =
      let (g, run, held) =
        print_one-directive m size c n f w kind precision args args' (spell_all pieces) le letter e
          read in
      dbg_print-step m n f g args args' (convert m kind precision size w) (render m pieces args')
        (λ z. absurd (omega (arith, e, z))) run (next g held)

  pub dbg_print-render :
      (pieces : List Piece) (n f : ℕ) (args : List ℕ)
      → ArePieces pieces
      → takes pieces ≤ length args
      → Holds m f (spell_all pieces)
      → length (spell_all pieces) < n
      → dbg_print m n f args ≡ render m pieces args
  unfolding dbg_print
  dbg_print-render pieces zero f args ok enough held fuel = absurd (omega (arith, fuel))
  dbg_print-render [] (suc n) f args ok enough held fuel = ground (arith, held)
  dbg_print-render (plain c ∷ pieces) (suc n) f args ((some_left, other), ok) enough (e, h) fuel =
      dbg_print-step m n f (f + 1) args args (some (dbg_putc c ∷ [])) (render m pieces args)
        (λ z. some_left (sym e ∙ z)) (plain_step m n f c args other e)
        (dbg_print-render pieces n (f + 1) args ok enough h (omega (arith, fuel)))
  dbg_print-render (percent ∷ pieces) (suc n) f args (_, ok) enough (e, (e', h)) fuel =
      dbg_print-step m n f (f + 1 + 1) args args (some (dbg_putc b'%' ∷ [])) (render m pieces args)
        (λ z. absurd (omega (arith, e, z))) (percent_step m n f args e e')
        (dbg_print-render pieces n (f + 1 + 1) args ok enough h (omega (arith, fuel)))
  dbg_print-render (directive_of no_precision size c kind ∷ pieces) (suc n) f (w ∷ args)
        ((_, le, letter), ok) enough (e, h) fuel =
      directive_step size c n f w kind none (w ∷ args) args pieces le letter e
        (read_no_precision m size c n (f + 1) (w ∷ args) (spell_all pieces)
          (conversion-IsLetter c kind letter) h)
        (λ g held.
          dbg_print-render pieces n g args ok (omega (arith, enough)) held (omega (lengths, fuel)))
  dbg_print-render (directive_of star size c kind ∷ pieces) (suc n) f (v ∷ w ∷ args)
        ((_, le, letter), ok) enough (e, h) fuel =
      directive_step size c n f w kind (int_precision v) (v ∷ w ∷ args) args pieces le letter e
        (read_star m n (f + 1) v (w ∷ args) (spell_size size (c ∷ spell_all pieces)) h)
        (λ g held.
          dbg_print-render pieces n g args ok (omega (arith, enough)) held (omega (lengths, fuel)))
  dbg_print-render (directive_of (digits ds) size c kind ∷ pieces) (suc n) f (w ∷ args)
        ((small, le, letter), ok) enough (e, h) fuel =
      directive_step size c n f w kind (some (decimal 0 ds)) (w ∷ args) args pieces le letter e
        (read_digits m size c n (f + 1) ds (w ∷ args) (spell_all pieces)
          (conversion-IsLetter c kind letter) small (omega (lengths, fuel)) h)
        (λ g held.
          dbg_print-render pieces n g args ok (omega (arith, enough)) held (omega (lengths, fuel)))
  dbg_print-render _ (suc n) f _ ok enough held fuel = absurd (omega (arith, enough))

-- On a format of characters, directives and `%%`, with an argument for each directive and for each
-- `.*`, dbg_print returns for every fuel above the format's length: it prints the characters as they
-- are and each directive on the next arguments, and reads the format up to its end.
pub dbg_print-renders :
    (m : Memory) (pieces : List Piece) (n f : ℕ) (args : List ℕ)
    → ArePieces pieces
    → takes pieces ≤ length args
    → AreWords args
    → Holds m f (spell_all pieces)
    → length (spell_all pieces) < n
    → (calls : List Call) × (dbg_print m n f args ≡ some calls)
      × (render m pieces args ≡ some calls)
dbg_print-renders m pieces n f args ok enough words held fuel =
    let (calls, run) = render_defined m pieces args enough words in
    (calls, dbg_print-render m pieces n f args ok enough held fuel ∙ run, run)
