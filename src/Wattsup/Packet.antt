-- ===== src/Wattsup/Packet.antt =====
-- `struct wu_packet` of wattsup/wattsup.c. A `char *` is null, an offset into the packet's own
-- buffer, or a text elsewhere.
use soml_apps.Common.{ℕ, zero, suc, List, [], ◌∷◌, get_elem?, replicate}
use soml_apps.Clib.Run.{Run, ok, fault, ◌>>=◌, demand}
use soml_apps.Clib.Text.{Bytes, string_at, until_nul}

abbrev pub wu_strlen : ℕ
wu_strlen = 256

abbrev pub wu_num_fields : ℕ
wu_num_fields = 18

pub data Pointer : Type 0 where
  null : Pointer
  into_buf : ℕ → Pointer
  literal : Bytes → Pointer

-- `cmd` and `sub_cmd` are bytes, `count` and `len` 32-bit words.
pub record Packet : Type 0 where
  pub cmd : ℕ
  pub sub_cmd : ℕ
  pub count : ℕ
  pub buf : Bytes
  pub len : ℕ
  pub field : List Pointer
  pub label : List Pointer

-- An array of pointers whose first entries are initialised, and the rest null.
abbrev pub slots : List Pointer → ℕ → List Pointer
slots ps zero = []
slots [] (suc n) = null ∷ slots [] n
slots (p ∷ ps) (suc n) = p ∷ slots ps n

-- A local packet as its initialiser leaves it.
abbrev pub packet : ℕ → ℕ → ℕ → List Pointer → List Pointer → Packet
packet cmd sub_cmd count fields labels = record {
  cmd = cmd;
  sub_cmd = sub_cmd;
  count = count;
  buf = replicate wu_strlen 0;
  len = 0;
  field = slots fields wu_num_fields;
  label = slots labels wu_num_fields;
}

-- Reading the string behind a pointer.
unfoldable pub pointer_text : Bytes → Pointer → Run Bytes
unfolding until_nul
pointer_text buf null = fault
pointer_text buf (into_buf o) = ok (string_at buf o)
pointer_text buf (literal t) = ok t

-- `p->field[i]`, read as a string.
unfoldable pub field_text : Packet → ℕ → Run Bytes
unfolding pointer_text
field_text p i = demand (get_elem? p.field i) >>= pointer_text p.buf
