-- ===== src/Keyboard/Events.antt =====
-- Interrupts and reads in any order, against a queue.
use magnos.Base.{
  ℕ, ◌≡◌, refl, ◌∙◌, ap, ap₂, List, [], ◌∷◌, inl, inr, arith, ◌==◌, if◌then◌else◌, Bool-cases,
  bit_clear, clear_bit,
}
use magnos.Keyboard.{
  Keyboard, enqueue, irq_handler, getchar, translate_scancode, press, release, ascii, uses_shift,
}
use magnos.Keyboard.Ring.{IsValid, pending, push, front, rest, irq_handler-push, getchar-front}

pub data Event : Type 0 where
  scancode : ℕ → Event
  read : Event

-- The characters that the reads return.
unfoldable pub run : Keyboard → List Event → List ℕ
run k [] = []
run k (scancode s ∷ es) = run (irq_handler k s) es
run k (read ∷ es) = (getchar k).1 ∷ run (getchar k).0 es

-- The same over a queue, and over the modifier flags alone.
pub run_queue : Keyboard → List ℕ → List Event → List ℕ
run_queue k q [] = []
run_queue k q (scancode s ∷ es) =
    let (k', c) = translate_scancode k s in run_queue k' (if c == 0 then q else push q c) es
run_queue k q (read ∷ es) = front q ∷ run_queue k (rest q) es

-- The flags of `k` with the ring of `r`.
abbrev with_ring : Keyboard → Keyboard → Keyboard
with_ring k r = record k { kb_buffer = r.kb_buffer; kb_head = r.kb_head; kb_tail = r.kb_tail }

ascii-with_ring : (k r : Keyboard) (s : ℕ) → ascii (with_ring k r) s ≡ ascii k s
unfolding ascii uses_shift
ascii-with_ring k r s = refl

press-with_ring :
    (k r : Keyboard) (s : ℕ) → press (with_ring k r) s ≡ (with_ring (press k s).0 r, (press k s).1)
unfolding press
press-with_ring k r s = ground (arith, ascii-with_ring k r s)

release-with_ring : (k r : Keyboard) (s : ℕ) → release (with_ring k r) s ≡ with_ring (release k s) r
unfolding release
release-with_ring k r s = ground arith

translate-with_ring :
    (k r : Keyboard) (s : ℕ)
    → translate_scancode (with_ring k r) s
      ≡ (with_ring (translate_scancode k s).0 r, (translate_scancode k s).1)
unfolding translate_scancode
translate-with_ring k r s = elim (Bool-cases (bit_clear s 7)) [
  | inl e ↦ rw e (press-with_ring k r s)
  | inr e ↦ rw e (ap (λ (k' : Keyboard). (k', 0)) (release-with_ring k r (clear_bit s 7)))
]

-- The queue's run reads only the flags.
run_queue-with_ring :
    (es : List Event) (k r : Keyboard) (q : List ℕ)
    → run_queue (with_ring k r) q es ≡ run_queue k q es
unfolding run_queue
run_queue-with_ring [] k r q = refl
run_queue-with_ring (scancode s ∷ es) k r q =
    rw (translate-with_ring k r s) (run_queue-with_ring es (translate_scancode k s).0 r _)
run_queue-with_ring (read ∷ es) k r q = ap (◌∷◌ (front q)) (run_queue-with_ring es k r (rest q))

irq_handler-with_ring :
    (k : Keyboard) (s : ℕ)
    → irq_handler k s ≡ with_ring (translate_scancode k s).0 (irq_handler k s)
unfolding irq_handler enqueue
irq_handler-with_ring k s = ground arith

getchar-with_ring : (k : Keyboard) → (getchar k).0 ≡ with_ring k (getchar k).0
unfolding getchar
getchar-with_ring k = ground arith

-- Whatever the order of interrupts and reads, the reads return what a queue of at most 255 characters
-- returns: the characters in the order in which they were typed, less those typed while it was full.
pub run_refines :
    (es : List Event) {k : Keyboard} → IsValid k → run k es ≡ run_queue k (pending k) es
unfolding run run_queue
run_refines [] v = refl
run_refines (scancode s ∷ es) {k} v =
    let (v', q) = irq_handler-push s v in
    run_refines es v'
    ∙ ap (λ (l : List ℕ). run_queue (irq_handler k s) l es) q
    ∙ ap
        (λ (k' : Keyboard).
          run_queue k'
            (if (translate_scancode k s).1 == 0
              then pending k
              else push (pending k) (translate_scancode k s).1)
            es)
        (irq_handler-with_ring k s)
    ∙ run_queue-with_ring es (translate_scancode k s).0 (irq_handler k s) _
run_refines (read ∷ es) {k} v =
    let (v', c, q) = getchar-front v in
    ap₂ ◌∷◌ c (
      run_refines es v'
      ∙ ap (λ (l : List ℕ). run_queue (getchar k).0 l es) q
      ∙ ap (λ (k' : Keyboard). run_queue k' (rest (pending k)) es) (getchar-with_ring k)
      ∙ run_queue-with_ring es k (getchar k).0 _)
