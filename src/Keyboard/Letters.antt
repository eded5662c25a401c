-- ===== src/Keyboard/Letters.antt =====
-- What a key press translates to, for the letter keys and for the modifiers.
use magnos.Base.{
  ℕ, ◌+◌, ◌-◌, ◌<◌, ◌≤◌, ◌≡◌, ◌≢◌, refl, Bool, true, false, not, ◌&&◌, ◌||◌, arith, ltb, leb, ◌==◌,
  if◌then◌else◌, holds_below, holds_below_at, bit_clear, clear_bit,
}
use mathlib.Core.Bool.{xor}
use magnos.Keyboard.{
  Keyboard, is_letter_key, uses_shift, shifted, unshifted, ascii, press, release,
  translate_scancode,
}
use magnos.Keyboard.Key

-- A letter key has a lower-case letter, and its upper case in the other table.
letter_ok : ℕ → Bool
letter_ok s =
    not (is_letter_key s)
    || (bit_clear s 7
        && (leb b'a' (unshifted s) && (leb (unshifted s) b'z' && shifted s == unshifted s - 32)))

letter_table : holds_below 128 letter_ok ≡ true
unfolding holds_below letter_ok bit_clear shifted unshifted
letter_table = refl

letter_facts :
    (s : ℕ)
    → is_letter_key s ≡ true
    → (bit_clear s 7 ≡ true)
      × (b'a' ≤ unshifted s)
      × (unshifted s ≤ b'z')
      × (shifted s ≡ unshifted s - 32)
unfolding letter_ok
letter_facts s h =
    let lt : s < 128 = ground arith in
    let ok : letter_ok s ≡ true = holds_below_at 128 letter_ok s letter_table lt in ground arith

press-letter : (k : Keyboard) (s : ℕ) → is_letter_key s ≡ true → press k s ≡ (k, ascii k s)
unfolding press
press-letter k s h = ground arith

ascii-letter :
    (k : Keyboard) (s : ℕ)
    → is_letter_key s ≡ true
    → ascii k s ≡ (if xor k.shift_pressed k.capslock_on then shifted s else unshifted s)
unfolding ascii uses_shift
ascii-letter k s h = let small : ltb s 88 ≡ true = ground arith in rw (small, h)

-- A letter key gives its lower-case letter, or that letter's upper case when exactly one of shift and
-- caps lock is on; it changes no state.
pub translate_letter :
    (k : Keyboard) (s : ℕ)
    → is_letter_key s ≡ true
    → (b'a' ≤ unshifted s)
      × (unshifted s ≤ b'z')
      × (translate_scancode k s
          ≡ (k, if xor k.shift_pressed k.capslock_on then unshifted s - 32 else unshifted s))
unfolding translate_scancode
translate_letter k s h =
    let (plain, lo, hi, up) = letter_facts s h in
    (lo, hi, rw (plain, press-letter k s h, ascii-letter k s h, up))

release_ok : ℕ → Bool
release_ok s = bit_clear s 7 && (not (bit_clear (s + 128) 7) && clear_bit (s + 128) 7 == s)

release_table : holds_below 128 release_ok ≡ true
unfolding holds_below release_ok bit_clear clear_bit
release_table = refl

release_bits :
    (s : ℕ)
    → s < 128
    → (bit_clear s 7 ≡ true) × (bit_clear (s + 128) 7 ≡ false) × (clear_bit (s + 128) 7 ≡ s)
unfolding release_ok
release_bits s h = ground (arith, holds_below_at 128 release_ok s release_table h)

-- A scancode with bit 7 set, a key release, gives no character, and pressing and then releasing a key
-- other than caps lock gives no character for the release and leaves each modifier flag as it was,
-- except that the flag of the key's own modifier ends up off.
pub translate_press_release :
    (k : Keyboard) (s : ℕ)
    → s < 128
    → s ≢ Key.capslock
    → translate_scancode (translate_scancode k s).0 (s + 128) ≡ (
      record k {
        shift_pressed = k.shift_pressed && not (s == Key.lshift || s == Key.rshift);
        ctrl_pressed = k.ctrl_pressed && not (s == Key.lctrl);
        alt_pressed = k.alt_pressed && not (s == Key.lalt);
      },
      0,
    )
unfolding translate_scancode press release
translate_press_release k s h ne = let (a, b, c) = release_bits s h in rw (a, b, c) (ground arith)
