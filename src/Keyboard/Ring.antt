-- ===== src/Keyboard/Ring.antt =====
-- The ring buffer of kernel/keyboard.c refines a queue of at most 255 characters.
use magnos.Base.{
  bit_clear, clear_bit, ℕ, zero, suc, ◌+◌, ◌-◌, ◌%◌, ◌<◌, ◌≡◌, refl, ◌∙◌, ap, ap₂, true, false,
  List, [], ◌∷◌, ◌++◌, inl, inr, arith, ltb, ◌==◌, if◌then◌else◌, Bool-cases, length, get_or, set,
  length-set, get_or-set_self, get_or-set_ne,
}
use magnos.Keyboard.{
  Keyboard, kb_buffer_size, enqueue, irq_handler, getchar, translate_scancode, reset, press,
  release,
}

-- The indices stay inside the buffer.
pub record IsValid (k : Keyboard) : Type 0 where
  pub size : length k.kb_buffer ≡ kb_buffer_size
  pub head_in : k.kb_head < kb_buffer_size
  pub tail_in : k.kb_tail < kb_buffer_size

-- The `n` characters from index `i` on, going round.
abbrev pub slice : List ℕ → ℕ → ℕ → List ℕ
slice b i zero = []
slice b i (suc n) = get_or b i 0 ∷ slice b ((i + 1) % kb_buffer_size) n

-- The number of waiting characters, and the characters, oldest first.
abbrev pub waiting : Keyboard → ℕ
waiting k = (k.kb_head + kb_buffer_size - k.kb_tail) % kb_buffer_size

abbrev pub pending : Keyboard → List ℕ
pending k = slice k.kb_buffer k.kb_tail (waiting k)

length-slice : (b : List ℕ) (i n : ℕ) → length (slice b i n) ≡ n
length-slice b i zero = refl
length-slice b i (suc n) = ap suc (length-slice b ((i + 1) % kb_buffer_size) n)

-- Writing at the index behind a slice adds a character to it.
slice-set :
    (b : List ℕ) (i n h c : ℕ)
    → length b ≡ kb_buffer_size
    → i < kb_buffer_size
    → n < kb_buffer_size
    → h ≡ (i + n) % kb_buffer_size
    → slice (set b h c) i (suc n) ≡ slice b i n ++ (c ∷ [])
slice-set b i zero h c size hi hn e =
    let eh : h ≡ i = omega arith in rw (eh, get_or-set_self b i c 0 (omega (arith, size)))
slice-set b i (suc n) h c size hi hn e =
    ap₂ ◌∷◌ (get_or-set_ne b h i c 0 (omega arith))
      (slice-set b ((i + 1) % kb_buffer_size) n h c size (omega arith) (omega arith) (omega arith))

slice-add : (b : List ℕ) (i n m : ℕ) → m ≡ suc n → slice b i m ≡ slice b i (suc n)
slice-add b i n m e = ap (slice b i) e

-- The abstract queue: a full one drops what comes.
abbrev pub push : List ℕ → ℕ → List ℕ
push q c = if ltb (length q) (kb_buffer_size - 1) then q ++ (c ∷ []) else q

enqueue_lem :
    {k : Keyboard} (c : ℕ)
    → IsValid k
    → IsValid (enqueue k c) × (pending (enqueue k c) ≡ push (pending k) c)
unfolding enqueue
enqueue_lem {k} c v =
    let len = length-slice k.kb_buffer k.kb_tail (waiting k) in
    elim (Bool-cases ((k.kb_head + 1) % kb_buffer_size == k.kb_tail)) [
      | inl e ↦
          let full : ltb (length (pending k)) 255 ≡ false =
            ground (arith, len, v.head_in, v.tail_in) in
          rw (e, full) (v, refl)
      | inr e ↦
          let room : ltb (length (pending k)) 255 ≡ true =
            ground (arith, len, v.head_in, v.tail_in) in
          let more : ((k.kb_head + 1) % kb_buffer_size + kb_buffer_size - k.kb_tail)
                % kb_buffer_size
              ≡ suc (waiting k) =
            ground (arith, v.head_in, v.tail_in) in
          rw (e, room)
            (
              record {
                size = length-set k.kb_buffer k.kb_head c ∙ v.size;
                head_in = omega arith;
                tail_in = v.tail_in;
              },
              ap (slice (set k.kb_buffer k.kb_head c) k.kb_tail) more
                  ∙ slice-set k.kb_buffer k.kb_tail (waiting k) k.kb_head c v.size v.tail_in
                      (omega arith) (omega (arith, v.head_in, v.tail_in)),
            )
    ]

-- Translation touches only the modifier flags.
abbrev SameRing : Keyboard → Keyboard → Type 0
SameRing k k' = (k'.kb_buffer ≡ k.kb_buffer) × (k'.kb_head ≡ k.kb_head) × (k'.kb_tail ≡ k.kb_tail)

press_keeps : (k : Keyboard) (s : ℕ) → SameRing k (press k s).0
unfolding press
press_keeps k s = (ground arith, ground arith, ground arith)

release_keeps : (k : Keyboard) (s : ℕ) → SameRing k (release k s)
unfolding release
release_keeps k s = (ground arith, ground arith, ground arith)

translate_keeps : (k : Keyboard) (s : ℕ) → SameRing k (translate_scancode k s).0
unfolding translate_scancode
translate_keeps k s = elim (Bool-cases (bit_clear s 7)) [
  | inl e ↦ rw e (press_keeps k s)
  | inr e ↦ rw e (release_keeps k (clear_bit s 7))
]

translated :
    {k : Keyboard} (s : ℕ)
    → IsValid k
    → IsValid (translate_scancode k s).0 × (pending (translate_scancode k s).0 ≡ pending k)
translated {k} s v =
    let (b, h, t) = translate_keeps k s in
    (
      record {
        size = ap length b ∙ v.size;
        head_in = omega (arith, h, v.head_in);
        tail_in = omega (arith, t, v.tail_in);
      },
      rw (b, h, t),
    )

-- The interrupt handler keeps the indices inside the buffer. It appends the character that the
-- scancode translates to, if there is one and fewer than 255 wait; else no waiting character changes.
pub irq_handler-push :
    {k : Keyboard} (s : ℕ)
    → IsValid k
    → let c = (translate_scancode k s).1 in
      IsValid (irq_handler k s)
      × (pending (irq_handler k s) ≡ (if c == 0 then pending k else push (pending k) c))
unfolding irq_handler
irq_handler-push {k} s v =
    let (v', same) = translated s v in
    elim (Bool-cases ((translate_scancode k s).1 == 0)) [
      | inl e ↦ rw e (v', same)
      | inr e ↦
          let (v'', q) = enqueue_lem (translate_scancode k s).1 v' in
          rw e (v'', q ∙ ap (λ (l : List ℕ). push l (translate_scancode k s).1) same)
    ]

-- What a reader takes from the front of the queue; 0 stands for an empty one.
abbrev pub front : List ℕ → ℕ
front [] = 0
front (c ∷ q) = c

abbrev pub rest : List ℕ → List ℕ
rest [] = []
rest (c ∷ q) = q

-- `keyboard_getchar` takes the oldest waiting character, or returns 0 and changes nothing if none waits.
pub getchar-front :
    {k : Keyboard}
    → IsValid k
    → IsValid (getchar k).0
      × ((getchar k).1 ≡ front (pending k))
      × (pending (getchar k).0 ≡ rest (pending k))
unfolding getchar
getchar-front {k} v = elim (Bool-cases (k.kb_tail == k.kb_head)) [
  | inl e ↦
      let none_left : waiting k ≡ 0 = ground (arith, v.head_in, v.tail_in) in
      rw (e, none_left) (v, refl, refl)
  | inr e ↦
      let n : ℕ = waiting k - 1 in
      let some_left : waiting k ≡ suc n = ground (arith, v.head_in, v.tail_in) in
      let fewer : (k.kb_head + kb_buffer_size - (k.kb_tail + 1) % kb_buffer_size) % kb_buffer_size
          ≡ n =
        ground (arith, v.head_in, v.tail_in) in
      rw (e, some_left, fewer)
        (record { size = v.size; head_in = v.head_in; tail_in = omega arith }, refl, refl)
]

-- After `keyboard_init` no character waits and no modifier is on.
pub reset-IsValid :
    (k : Keyboard)
    → length k.kb_buffer ≡ kb_buffer_size
    → IsValid (reset k) × (pending (reset k) ≡ [])
unfolding reset
reset-IsValid k size = (record { size = size; head_in = omega arith; tail_in = omega arith }, refl)
