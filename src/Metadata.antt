-- ===== src/Metadata.antt =====
-- `oml_inject_metadata`, of which every tool has the same copy: the one of wattsup/wattsup.c.
pub mod CommandLine
use soml_apps.Common.{ℕ, ◌+◌, ◌-◌, List, [], ◌∷◌, ◌++◌, ltb, leb, if◌then◌else◌, length, take}
use soml_apps.Clib.Run.{Run, ok, fault, ◌>>=◌}
use soml_apps.Clib.Text.{Bytes, codes}

-- Subtraction of a 64-bit `size_t`.
abbrev pub subtract : ℕ → ℕ → ℕ
subtract a b = if leb b a then a - b else a + 18446744073709551616 - b

-- `strncat(dest, src, n)` into an array of this size: at most `n` bytes, and a NUL.
unfoldable pub strncat : ℕ → Bytes → Bytes → ℕ → Run Bytes
strncat size dest src n =
    let text = dest ++ take n src in if ltb (length text) size then ok text else fault

-- The first loop: `cmdline_len += strlen(argv[i]) + 1`.
unfoldable pub total_length : List Bytes → ℕ
total_length [] = 0
total_length (a ∷ as_) = length a + 1 + total_length as_

-- The second loop, with the text so far and `cmdline_len`.
unfoldable pub append_arguments : ℕ → List Bytes → Bytes → ℕ → Run Bytes
unfolding strncat
append_arguments size [] text cmdline_len = ok text
append_arguments size (a ∷ as_) text cmdline_len = do
  text' ← strncat size text a cmdline_len
  let left : ℕ = subtract cmdline_len (length a)
  text'' ← strncat size text' (codes " ") left
  append_arguments size as_ text'' (subtract left 1)

-- The local array `cmdline`.
unfoldable pub command_line : List Bytes → Run Bytes
unfolding total_length append_arguments
command_line argv = append_arguments (total_length argv + 1) argv [] (total_length argv)

-- One call of `omlc_inject_metadata`: its key and its value.
pub record Metadata : Type 0 where
  pub key : Bytes
  pub value : Bytes

unfoldable pub oml_inject_metadata : Bytes → Bytes → List Bytes → Run (List Metadata)
unfolding command_line
oml_inject_metadata package_name package_version argv = do
  cmdline ← command_line argv
  ok (
      record { key = codes "appname"; value = package_name }
      ∷ record { key = codes "version"; value = package_version }
      ∷ record { key = codes "cmdline"; value = cmdline }
      ∷ [])
