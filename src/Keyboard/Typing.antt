-- ===== src/Keyboard/Typing.antt =====
-- Keys pressed and released one after another.
use plum_os.Prelude.{
  ℕ, zero, suc, ◌+◌, ◌-◌, ◌%◌, ◌^◌, ◌≤◌, ◌<◌, ◌≡◌, refl, subst, ltb, lt→ltb, sym, ap, ◌∙◌, ◌≢◌,
  true, false, List, [], ◌∷◌, length, get_or, ==_ne, arith,
}
use plum_os.Kernel.{Kernel, ok, M, pure, ◌>>=◌, and_then, put}
use plum_os.Console.{Screen, print_to_screen}
use plum_os.Console.Size.{print_to_screen-size}
use plum_os.Keyboard.{
  Keyboard, normalmap, normal_keys, is_normal_key_pressed, is_normal_key_released,
  is_special_key_pressed, echo, appended, buffer_bytes, clear_normal, plain_key, kbdintr,
}

-- Each key is pressed and released before the next one.
unfoldable pub type_keys : ℕ → (ℕ → ℕ) → List ℕ → Keyboard → M Keyboard
type_keys n before [] kb = pure kb
type_keys n before (key ∷ keys) kb = do
  down ← kbdintr n before 1 key kb
  up ← kbdintr n before 1 (key + 0x80) down
  type_keys n before keys up

-- A key that writes a character: no Backspace (0x0e), no Enter (0x1c) and none without a character.
pub record IsPlain (key : ℕ) : Type 0 where
  pub written : normalmap key ≢ 0
  pub no_backspace : key ≢ 0xe
  pub no_enter : key ≢ 0x1c

-- What typing is meant to do: each key's character on the screen and at the end of the buffer.
unfoldable pub typed : List ℕ → Keyboard → Keyboard
typed [] kb = kb
typed (key ∷ keys) kb = typed keys (appended (normalmap key) (echo (normalmap key) kb))

pub data AllPlain : List ℕ → Type 0 where
  no_keys : AllPlain []
  plain : {key : ℕ} {keys : List ℕ} → IsPlain key → AllPlain keys → AllPlain (key ∷ keys)

beyond : (xs : List ℕ) (k : ℕ) → length xs ≤ k → get_or xs k 0 ≡ 0
beyond [] k h = refl
beyond (x ∷ xs) zero h = absurd (omega arith)
beyond (x ∷ xs) (suc k) h = beyond xs k (omega arith)

pub normalmap-beyond : (k : ℕ) → 84 ≤ k → normalmap k ≡ 0
unfolding normalmap
normalmap-beyond k h = beyond normal_keys k h

press :
    (n : ℕ) (before : ℕ → ℕ) (key : ℕ) (kb : Keyboard) (k : Kernel)
    → normalmap key ≢ 0
    → kbdintr n before 1 key kb k ≡ ok (record kb { normal_key_pressed = key }) k
unfolding kbdintr is_normal_key_pressed
press n before key kb k h = ground (arith, h)

no_press : (key : ℕ) → is_normal_key_pressed (key + 0x80) ≡ false
unfolding is_normal_key_pressed
no_press key = rw (normalmap-beyond (key + 0x80) (omega arith)) refl

no_special : (key : ℕ) → is_special_key_pressed (key + 0x80) ≡ false
unfolding is_special_key_pressed
no_special key = ground arith

released :
    (before : ℕ → ℕ) (key : ℕ)
    → normalmap key ≢ 0
    → is_normal_key_released before (key + 0x80) ≡ true
unfolding is_normal_key_released
released before key h = ground (arith, h, same)
  where
    same : key + 0x80 - 0x80 ≡ key
    same = omega arith

pub release :
    (n : ℕ) (before : ℕ → ℕ) (key : ℕ) (kb : Keyboard) (k : Kernel)
    → normalmap key ≢ 0
    → kb.special_key_pressed ≡ 0
    → kbdintr n before 1 (key + 0x80) kb k ≡ plain_key n kb k
unfolding kbdintr
release n before key kb k h s = rw (no_press key, no_special key, released before key h, s) refl

pub room_left :
    (c : ℕ) (s : Screen)
    → s.stdin_buf_size < buffer_bytes
    → ltb (print_to_screen c s).stdin_buf_size buffer_bytes ≡ true
room_left c s room =
    lt→ltb (print_to_screen c s).stdin_buf_size buffer_bytes
      (subst (λ m. m < buffer_bytes) (sym (print_to_screen-size c s)) room)

-- What the release of a plain key does.
written :
    (n key : ℕ) (kb : Keyboard) (k : Kernel)
    → IsPlain key
    → kb.normal_key_pressed ≡ key
    → kb.screen.stdin_buf_size < buffer_bytes
    → plain_key n kb k ≡ ok (clear_normal (appended (normalmap key) (echo (normalmap key) kb))) k
unfolding plain_key
written n key kb k p e room =
    rw
      (
        e,
        ==_ne key 0xe p.no_backspace,
        ==_ne key 0x1c p.no_enter,
        room_left (normalmap key) kb.screen room,
      )
      refl

held_again :
    (c key : ℕ) (kb : Keyboard)
    → kb.normal_key_pressed ≡ 0
    → clear_normal (appended c (echo c (record kb { normal_key_pressed = key })))
      ≡ appended c (echo c kb)
unfolding appended echo
held_again c key kb e =
    ap (λ (v : ℕ). record (appended c (echo c kb)) { normal_key_pressed = v }) (sym e)

appended-keys :
    (c : ℕ) (kb : Keyboard)
    → ((appended c (echo c kb)).normal_key_pressed ≡ kb.normal_key_pressed)
      × ((appended c (echo c kb)).special_key_pressed ≡ kb.special_key_pressed)
unfolding appended echo
appended-keys c kb = (refl, refl)

pub appended-buffer :
    (c : ℕ) (kb : Keyboard)
    → ((appended c (echo c kb)).screen.stdin_buf_size ≡ (kb.screen.stdin_buf_size + 1) % 2 ^ 32)
      × ((appended c (echo c kb)).stdin_buf ≡ put kb.stdin_buf kb.screen.stdin_buf_size c)
unfolding appended echo
appended-buffer c kb =
    let e = print_to_screen-size c kb.screen in
    (ap (λ (v : ℕ). (v + 1) % 2 ^ 32) e, ap (λ (v : ℕ). put kb.stdin_buf v c) e)

-- Keys in a row, each a plain one, from a keyboard on which no key is held, with room for them in the buffer: the characters are typed one
-- after another, no key is held afterwards, and the kernel's state is what it was.
pub type_keys-typed :
    (n : ℕ) (before : ℕ → ℕ) (keys : List ℕ) (kb : Keyboard) (k : Kernel)
    → AllPlain keys
    → kb.normal_key_pressed ≡ 0
    → kb.special_key_pressed ≡ 0
    → kb.screen.stdin_buf_size + length keys ≤ buffer_bytes
    → type_keys n before keys kb k ≡ ok (typed keys kb) k
unfolding type_keys typed
type_keys-typed n before [] kb k no_keys none_held no_special_held room = refl
type_keys-typed n before (key ∷ keys) kb k (plain p ps) none_held no_special_held room =
    ap
      (λ r.
        and_then r
          (λ down. kbdintr n before 1 (key + 0x80) down >>= λ up. type_keys n before keys up))
      (press n before key kb k p.written)
    ∙ ap (λ r. and_then r (λ up. type_keys n before keys up))
        (release n before key held k p.written no_special_held
          ∙ written n key held k p refl (omega arith)
          ∙ ap (λ (t : Keyboard). ok t k) (held_again (normalmap key) key kb none_held))
    ∙ type_keys-typed n before keys (appended (normalmap key) (echo (normalmap key) kb)) k ps
        ((appended-keys (normalmap key) kb).0 ∙ none_held)
        ((appended-keys (normalmap key) kb).1 ∙ no_special_held)
        (omega (arith, (appended-buffer (normalmap key) kb).0))
  where
    held : Keyboard
    held = record kb { normal_key_pressed = key }

-- t's buffer is s's with the characters of the keys behind it.
pub record Extended (keys : List ℕ) (s t : Keyboard) : Type 0 where
  pub size : t.screen.stdin_buf_size ≡ s.screen.stdin_buf_size + length keys
  pub characters :
      (i : ℕ)
      → i < length keys
      → t.stdin_buf (s.screen.stdin_buf_size + i) ≡ normalmap (get_or keys i 0)
  pub kept : (i : ℕ) → i < s.screen.stdin_buf_size → t.stdin_buf i ≡ s.stdin_buf i

-- One character, and then the rest.
Extended-step :
    (key : ℕ) (keys : List ℕ) (kb t : Keyboard)
    → kb.screen.stdin_buf_size + suc (length keys) ≤ buffer_bytes
    → Extended keys (appended (normalmap key) (echo (normalmap key) kb)) t
    → Extended (key ∷ keys) kb t
Extended-step key keys kb t small rest = record {
  size = rest.size ∙ omega (arith, one_more);
  characters = λ i h. character i h;
  kept = λ i h.
      rest.kept i (omega (arith, one_more)) ∙ ap (λ (b : ℕ → ℕ). b i) put_there ∙ ground arith;
}
  where
    next : Keyboard
    next = appended (normalmap key) (echo (normalmap key) kb)

    one_more : next.screen.stdin_buf_size ≡ kb.screen.stdin_buf_size + 1
    one_more = (appended-buffer (normalmap key) kb).0 ∙ omega arith

    put_there : next.stdin_buf ≡ put kb.stdin_buf kb.screen.stdin_buf_size (normalmap key)
    put_there = (appended-buffer (normalmap key) kb).1

    character :
        (i : ℕ)
        → i < suc (length keys)
        → t.stdin_buf (kb.screen.stdin_buf_size + i) ≡ normalmap (get_or (key ∷ keys) i 0)
    character zero h =
        rest.kept (kb.screen.stdin_buf_size + 0) (omega (arith, one_more))
        ∙ ap (λ (b : ℕ → ℕ). b (kb.screen.stdin_buf_size + 0)) put_there
        ∙ ground arith
    character (suc i) h = ap t.stdin_buf (omega (arith, one_more)) ∙ rest.characters i (omega arith)

typed-Extended :
    (keys : List ℕ) (kb : Keyboard)
    → kb.screen.stdin_buf_size + length keys ≤ buffer_bytes
    → Extended keys kb (typed keys kb)
unfolding typed
typed-Extended [] kb small = record {
  size = omega arith;
  characters = λ i h. absurd (omega arith);
  kept = λ i h. refl;
}
typed-Extended (key ∷ keys) kb small =
    Extended-step key keys kb (typed keys (appended (normalmap key) (echo (normalmap key) kb)))
      small
      (typed-Extended keys (appended (normalmap key) (echo (normalmap key) kb))
        (omega (arith, (appended-buffer (normalmap key) kb).0)))

-- Plain keys (each writes a character and is neither Backspace nor Enter), pressed and released one
-- after another on a keyboard with no key held, where the buffer's page, of 4096 bytes, has room for
-- all their characters: each interrupt returns, the buffer grows by the keys' characters in their order, what was in it stays, and the
-- kernel's state does not change.
pub type_keys-Extended :
    (n : ℕ) (before : ℕ → ℕ) (keys : List ℕ) (kb : Keyboard) (k : Kernel)
    → AllPlain keys
    → kb.normal_key_pressed ≡ 0
    → kb.special_key_pressed ≡ 0
    → kb.screen.stdin_buf_size + length keys ≤ buffer_bytes
    → (t : Keyboard) × (type_keys n before keys kb k ≡ ok t k) × Extended keys kb t
type_keys-Extended n before keys kb k plain_keys none_held no_special_held small = (
  typed keys kb,
  type_keys-typed n before keys kb k plain_keys none_held no_special_held small,
  typed-Extended keys kb small,
)
