-- ===== src/Wattsup/Store/Commands.antt =====
-- The texts of the commands that the `store` methods of wattsup/wattsup.c send.
use soml_apps.Common.{
  ℕ, ◌<◌, ◌≤◌, ◌≡◌, refl, ap, ◌∙◌, [], ◌∷◌, ◌++◌, arith, length, length-append, take, take_all,
  append_assoc, append-nil,
}
use soml_apps.Clib.Run.{ok, success}
use soml_apps.Clib.Text.{Bytes, codes}
use soml_apps.Clib.Number.{decimal, signed_decimal}
use soml_apps.Clib.Number.Laws.{length-decimal}
use soml_apps.Wattsup.Packet.{Packet, packet, literal}
use soml_apps.Wattsup.Command.{encode, argument_text}
use soml_apps.Wattsup.Command.Format.{command_text, encode-command_text}
use soml_apps.Wattsup.Store.{param_text, interval_command, mode_command}

-- A 32-bit number fits into the 16 bytes of a parameter, with the d that follows it.
param_text-decimal : (n : ℕ) → n < 4294967296 → param_text n ≡ decimal n ++ codes "d"
param_text-decimal n h =
    take_all (decimal n ++ codes "d") 15
      (omega (arith, length-append (decimal n) (codes "d"), length-decimal n h))

length-param_text : (n : ℕ) → n < 4294967296 → length (param_text n) ≤ 11
length-param_text n h = omega (
  arith,
  ap length (param_text-decimal n h),
  length-append (decimal n) (codes "d"),
  length-decimal n h,
)

one_parameter :
    (c d : ℕ) (a : Bytes)
    → length a ≤ 11
    → (q : Packet) × (encode (packet c d 1 (literal a ∷ []) []) ≡ ok (q, success))
      × (take q.len q.buf ≡ b'#' ∷ c ∷ b',' ∷ d ∷ (codes ",1," ++ (a ++ codes ";")))
unfolding argument_text signed_decimal
one_parameter c d a short =
    let p = packet c d 1 (literal a ∷ []) [] in
    let text : command_text p (a ∷ []) ≡ b'#' ∷ c ∷ b',' ∷ d ∷ (codes ",1," ++ (a ++ codes ";")) =
      ap (λ t. b'#' ∷ c ∷ b',' ∷ d ∷ (codes ",1," ++ (t ++ codes ";"))) (append-nil a) in
    let (q, sent, len, taken) =
      encode-command_text p (a ∷ []) (refl, tt) refl (omega arith)
        (omega (arith, ap length text, length-append a (codes ";"))) in
    (q, sent, taken ∙ text)

two_parameters :
    (c d : ℕ) (a b : Bytes)
    → length a ≤ 11
    → length b ≤ 11
    → (q : Packet) × (encode (packet c d 2 (literal a ∷ literal b ∷ []) []) ≡ ok (q, success))
      × (take q.len q.buf ≡ b'#' ∷ c ∷ b',' ∷ d ∷ (codes ",2," ++ (a ++ b',' ∷ (b ++ codes ";"))))
unfolding argument_text signed_decimal
two_parameters c d a b short short' =
    let p = packet c d 2 (literal a ∷ literal b ∷ []) [] in
    let text : command_text p (a ∷ b ∷ [])
        ≡ b'#' ∷ c ∷ b',' ∷ d ∷ (codes ",2," ++ (a ++ b',' ∷ (b ++ codes ";"))) =
      ap (λ t. b'#' ∷ c ∷ b',' ∷ d ∷ (codes ",2," ++ t))
        (append_assoc a (b',' ∷ (b ++ [])) (codes ";")
          ∙ ap (λ t. a ++ b',' ∷ (t ++ codes ";")) (append-nil b)) in
    let (q, sent, len, taken) =
      encode-command_text p (a ∷ b ∷ []) (refl, (refl, tt)) refl (omega arith)
        (omega (
          arith,
          ap length text,
          length-append a (b',' ∷ (b ++ codes ";")),
          length-append b (codes ";"),
        )) in
    (q, sent, taken ∙ text)

param_text-append :
    (n : ℕ) (rest : Bytes) → n < 4294967296 → param_text n ++ rest ≡ decimal n ++ b'd' ∷ rest
param_text-append n rest h =
    ap (λ t. t ++ rest) (param_text-decimal n h) ∙ append_assoc (decimal n) (codes "d") rest

-- `wu_write_interval` sends both numbers, each with the letter d behind it.
pub encode-interval_command :
    (seconds spacing : ℕ)
    → seconds < 4294967296
    → spacing < 4294967296
    → (q : Packet) × (encode (interval_command seconds spacing) ≡ ok (q, success))
      × (take q.len q.buf
          ≡ codes "#S,W,2," ++ (decimal seconds ++ (codes "d," ++ (decimal spacing ++ codes "d;"))))
unfolding interval_command
encode-interval_command seconds spacing h h' =
    let (q, sent, text) =
      two_parameters b'S' b'W' (param_text seconds) (param_text spacing)
        (length-param_text seconds h) (length-param_text spacing h') in
    (
      q,
      sent,
      text
          ∙ ap (λ t. codes "#S,W,2," ++ t)
              (param_text-append seconds (b',' ∷ (param_text spacing ++ codes ";")) h
                ∙ ap (λ t. decimal seconds ++ (codes "d," ++ t))
                    (param_text-append spacing (codes ";") h')),
    )

-- `wu_write_mode` sends its number with the letter d behind it.
encode-mode_command :
    (display : ℕ)
    → display < 4294967296
    → (q : Packet) × (encode (mode_command display) ≡ ok (q, success))
      × (take q.len q.buf ≡ codes "#M,W,1," ++ (decimal display ++ codes "d;"))
unfolding mode_command
encode-mode_command display h =
    let (q, sent, text) =
      one_parameter b'M' b'W' (param_text display) (length-param_text display h) in
    (q, sent, text ∙ ap (λ t. codes "#M,W,1," ++ t) (param_text-append display (codes ";") h))
