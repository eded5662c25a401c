-- ===== src/Serial/Lines.antt =====
-- `serial_puts` of kernel/serial.c: what goes over the line.
use magnos.Base.{
  ℕ, zero, suc, ◌+◌, ◌%◌, ◌^◌, ◌<◌, ◌≡◌, refl, sym, ◌∙◌, ap, subst, true, false, List, [], ◌∷◌,
  ◌++◌, append-nil, append_assoc, Option, some, ◌==◌, if◌then◌else◌, Bool-cases, inl, inr, arith,
}
use magnos.Ports.{output, input, History, Device}
use magnos.Serial.{data_reg, is_transmit_empty, read_line, putchar, then_put, puts}

-- The bytes that were written to the data port, in order.
unfoldable pub sent : ℕ → History → List ℕ
sent port [] = []
sent port (output p v ∷ h) = if p == port + data_reg then sent port h ++ v ∷ [] else sent port h
sent port (input p v ∷ h) = sent port h

-- A line ends with a carriage return and a line feed; the characters are bytes.
unfoldable pub line : List ℕ → List ℕ
line [] = []
line (c ∷ cs) = if c == 10 then 13 ∷ 10 ∷ line cs else c % 2 ^ 8 ∷ line cs

-- The history behind so many reads of the status.
abbrev pub looks : Device → ℕ → ℕ → History → History
looks device port zero h = h
looks device port (suc n) h = looks device port n (read_line device port h)

-- The chip gets ready to send within so many reads of its status, whatever came before.
abbrev pub Sends : Device → ℕ → ℕ → Type 0
Sends device port fuel =
    (h : History)
    → (n : ℕ) × (n < fuel) × (is_transmit_empty device port (looks device port n h) ≡ true)

abbrev pub Wrote : ℕ → History → List ℕ → Option History → Type 0
Wrote port h bytes r = (h' : History) × (r ≡ some h') × (sent port h' ≡ sent port h ++ bytes)

putchar_done :
    (device : Device) (port fuel c : ℕ) (h : History)
    → is_transmit_empty device port h ≡ true
    → Wrote port h (c % 2 ^ 8 ∷ []) (putchar device port (suc fuel) c h)
unfolding putchar sent
putchar_done device port fuel c h e =
    let here : port + data_reg == port + data_reg ≡ true = ground arith in
    (
      output (port + data_reg) (c % 2 ^ 8) ∷ read_line device port h,
      rw (putchar, e) refl,
      rw here refl,
    )

putchar_again :
    (device : Device) (port fuel c : ℕ) (h : History)
    → is_transmit_empty device port h ≡ false
    → putchar device port (suc fuel) c h ≡ putchar device port fuel c (read_line device port h)
unfolding putchar
putchar_again device port fuel c h e = rw (putchar, e) refl

putchar-Wrote :
    (device : Device) (port fuel n c : ℕ) (h : History)
    → n < fuel
    → is_transmit_empty device port (looks device port n h) ≡ true
    → Wrote port h (c % 2 ^ 8 ∷ []) (putchar device port fuel c h)
unfolding sent
putchar-Wrote device port zero n c h lt e = absurd (omega arith)
putchar-Wrote device port (suc fuel) zero c h lt e = putchar_done device port fuel c h e
putchar-Wrote device port (suc fuel) (suc n) c h lt e =
    elim (Bool-cases (is_transmit_empty device port h)) [
      | inl now ↦ putchar_done device port fuel c h now
      | inr later ↦
          let (h', run, bytes) =
            putchar-Wrote device port fuel n c (read_line device port h) (omega arith) e in
          (h', putchar_again device port fuel c h later ∙ run, bytes)
    ]

pub put :
    (device : Device) (port fuel c : ℕ) (h : History)
    → Sends device port fuel
    → Wrote port h (c % 2 ^ 8 ∷ []) (putchar device port fuel c h)
put device port fuel c h ready =
    let (n, lt, e) = ready h in putchar-Wrote device port fuel n c h lt e

then_put-Wrote :
    (port : ℕ) (h : History) (xs ys : List ℕ) (r : Option History) (more : History → Option History)
    → Wrote port h xs r
    → ((h' : History) → Wrote port h' ys (more h'))
    → Wrote port h (xs ++ ys) (then_put r more)
then_put-Wrote port h xs ys r more (h1, e, bytes) next =
    let (h2, e', bytes') = next h1 in
    (
      h2,
      ap (λ t. then_put t more) e ∙ e',
      bytes' ∙ ap (λ t. t ++ ys) bytes ∙ append_assoc (sent port h) xs ys,
    )

pub puts-line :
    (device : Device) (port fuel : ℕ) (cs : List ℕ) (h : History)
    → Sends device port fuel
    → (h' : History) × (puts device port fuel cs h ≡ some h')
      × (sent port h' ≡ sent port h ++ line cs)
unfolding puts line
puts-line device port fuel [] h ready = (h, refl, sym (append-nil (sent port h)))
puts-line device port fuel (c ∷ cs) h ready = elim (Bool-cases (c == 10)) [
  | inl feed ↦
      let number : c % 2 ^ 8 ≡ 10 = ground arith in
      rw feed (
        then_put-Wrote port h (13 ∷ []) (10 ∷ line cs) (putchar device port fuel 13 h)
          (λ h1. then_put (putchar device port fuel c h1) (puts device port fuel cs))
          (put device port fuel 13 h ready)
          (λ h1.
            then_put-Wrote port h1 (10 ∷ []) (line cs) (putchar device port fuel c h1)
              (puts device port fuel cs)
              (subst (λ v. Wrote port h1 (v ∷ []) (putchar device port fuel c h1)) number
                (put device port fuel c h1 ready))
              (λ h2. puts-line device port fuel cs h2 ready)))
  | inr other ↦ rw other (
      then_put-Wrote port h (c % 2 ^ 8 ∷ []) (line cs) (putchar device port fuel c h)
        (puts device port fuel cs) (put device port fuel c h ready)
        (λ h1. puts-line device port fuel cs h1 ready))
]
