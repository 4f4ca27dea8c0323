-- ===== src/Students/Keys.antt =====
-- service/student_service.go: the keys of redis under which a student is cached and locked.
use Prim.Native.String.{[] as no_chars, ◌∷◌ as char_then, String}
use Prim.Native.String.append.{cons}
use Prim.Native.Char.{code}
use text.Mathlib.TextLemmas.{append_assoc}
use student_service.Common.{
  Bool, true, false, ◌==◌, ◌^◌, ◌≤◌, ◌<◌, ℤ, pos_part, neg_part, ◌≡◌, ◌≢◌, sym, ap, ◌∙◌, some,
  text_append, append-cancels, show_int,
}
use student_service.Import.Cells.{atoi}
use student_service.Import.Numbers.{atoi-show_int}
use student_service.Students.World.{cache_key, lock_key, student_cache_prefix, student_lock_prefix}

abbrev begins_with_i : String → Bool
begins_with_i no_chars = false
begins_with_i (char_then c s) = code c == b'i'

info_is_not-lock : (s t : String) → text_append "info:" s ≢ text_append "lock:" t
info_is_not-lock s t h =
    let k : true ≡ false =
      sym (ap begins_with_i (cons "i" "nfo:" s))
      ∙ ap begins_with_i h
      ∙ ap begins_with_i (cons "l" "ock:" t) in
    absurd (cc)

-- The `int`s of 64 bits.
abbrev pub IsInt64 : ℤ → Type 0
IsInt64 z = (pos_part z < 2 ^ 63) × (neg_part z ≤ 2 ^ 63)

show_int-injective : (a b : ℤ) → IsInt64 a → IsInt64 b → show_int a ≡ show_int b → a ≡ b
show_int-injective a b (al, ah) (bl, bh) h =
    let same : some a ≡ some b = sym (atoi-show_int a al ah) ∙ ap atoi h ∙ atoi-show_int b bl bh in
    cc

-- Two ids that are different have different keys in the cache and different locks, and the lock of a
-- student is never the key of a cached one.
pub keys_apart :
    (a b : ℤ)
    → IsInt64 a
    → IsInt64 b
    → (cache_key a ≡ cache_key b → a ≡ b)
      × (lock_key a ≡ lock_key b → a ≡ b)
      × (cache_key a ≢ lock_key b)
keys_apart a b ha hb = (
  λ h.
      show_int-injective a b ha hb
        (append-cancels student_cache_prefix (show_int a) (show_int b) h),
  λ h.
      show_int-injective a b ha hb (append-cancels student_lock_prefix (show_int a) (show_int b) h),
  λ h. info_is_not-lock (show_int a) (show_int b) (
      append-cancels "student:" (text_append "info:" (show_int a))
        (text_append "lock:" (show_int b))
        (sym (append_assoc "student:" "info:" (show_int a))
          ∙ h
          ∙ append_assoc "student:" "lock:" (show_int b))),
)
