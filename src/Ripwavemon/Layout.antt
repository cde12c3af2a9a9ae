-- ===== src/Ripwavemon/Layout.antt =====
-- The layout of a `navini_report_t` in ripwavemon/ripwavemon.c, and what `receive_reports` makes of
-- what arrives.
use soml_apps.Common.{
  ℕ, zero, suc, ◌+◌, ◌*◌, ◌/◌, ◌%◌, ◌≤◌, ◌<◌, ◌≡◌, ◌⊎◌, refl, ap, ◌∙◌, false, Option, none, some,
  List, [], ◌∷◌, ◌++◌, arith, leb, ◌==◌, if◌then◌else◌, length, take, drop, drop-append, Bool-cases,
  inl, inr, take_all, length-take, length-drop,
}
use soml_apps.Common.Int.{sub_ℕ}
use soml_apps.Clib.Run.{Run, ok, ◌>>=◌}
use soml_apps.Clib.Text.{Bytes}
use soml_apps.Clib.Words.{Host, little, big, htons, htonl, bytes16, bytes32}
use soml_apps.Ripwavemon.{
  Report, fields, receive, receive_reports, Output, row, unexpected_size, next_stamp, next8, next16,
  Stamp, load16, load32, antenna_of,
}

-- What a modem says: numbers in network byte order, strengths without their sign, and what it puts
-- between the fields.
pub record Sent : Type 0 where
  pub modemid : ℕ
  pub time : ℕ × ℕ × ℕ × ℕ × ℕ × ℕ
  pub syncstrength1 : ℕ
  pub btsid : ℕ
  pub networkid : ℕ
  pub antenna : ℕ
  pub syncstrength2 : ℕ
  pub snr : ℕ
  pub temperature : ℕ
  pub pad1 : Bytes
  pub pad2 : Bytes
  pub pad3 : Bytes
  pub pad4 : Bytes
  pub pad5 : Bytes
  pub antpad : ℕ
  pub pad6 : Bytes
  pub pad7 : Bytes
  pub pad8 : Bytes
  pub pad9 : Bytes

pub record IsReport (s : Sent) : Type 0 where
  pub modemid : s.modemid < 4294967296
  pub networkid : s.networkid < 65536
  pub antenna : s.antenna < 16
  pub antpad : s.antpad < 16
  pub pad1 : length s.pad1 ≡ 18
  pub pad2 : length s.pad2 ≡ 17
  pub pad3 : length s.pad3 ≡ 15
  pub pad4 : length s.pad4 ≡ 4
  pub pad5 : length s.pad5 ≡ 26
  pub pad6 : length s.pad6 ≡ 6
  pub pad7 : length s.pad7 ≡ 12
  pub pad8 : length s.pad8 ≡ 26
  pub pad9 : length s.pad9 ≡ 167

abbrev pub report_bytes : Sent → Bytes
report_bytes s =
    s.pad1
    ++ (bytes32 s.modemid
        ++ (s.time.0
            ∷ s.time.1
            ∷ s.time.2
            ∷ s.time.3
            ∷ s.time.4
            ∷ s.time.5
            ∷ (s.pad2
                ++ (s.syncstrength1
                    ∷ (s.pad3
                        ++ (s.btsid
                            ∷ (s.pad4
                                ++ (bytes16 s.networkid
                                    ++ (s.pad5
                                        ++ ((s.antenna * 16 + s.antpad)
                                            ∷ (s.pad6
                                                ++ (s.syncstrength2
                                                    ∷ (s.pad7
                                                        ++ (s.snr
                                                            ∷ (s.pad8
                                                            ++ (s.temperature
                                                            ∷ s.pad9))))))))))))))))

abbrev half_on : Host → ℕ → ℕ → ℕ
half_on little upper lower = upper
half_on big upper lower = lower

-- The upper half of the byte, `antenna`, where bit-fields are allocated from the lowest bit on, and
-- the lower half where they are allocated from the highest on.
abbrev antenna_on : Host → Sent → ℕ
antenna_on h s = half_on h s.antenna s.antpad

abbrev pub reported : Host → Sent → Report
reported h s = record {
  modemid = s.modemid;
  month = s.time.0;
  day = s.time.1;
  year = s.time.2;
  hour = s.time.3;
  minute = s.time.4;
  second = s.time.5;
  syncstrength1 = sub_ℕ 0 s.syncstrength1;
  btsid = s.btsid;
  networkid = s.networkid;
  antenna = antenna_on h s;
  syncstrength2 = sub_ℕ 0 s.syncstrength2;
  snr = s.snr;
  temperature = s.temperature;
}

past : (pad rest : Bytes) (n : ℕ) → length pad ≡ n → drop n (pad ++ rest) ≡ rest
past pad rest n e = drop-append pad rest n 0 (omega arith)

network32 :
    (h : Host) (n : ℕ)
    → n < 4294967296
    → htonl h (load32 h (n / 16777216 % 256) (n / 65536 % 256) (n / 256 % 256) (n % 256)) ≡ n
unfolding htonl
network32 little n b = omega arith
network32 big n b = omega arith

network16 : (h : Host) (n : ℕ) → n < 65536 → htons h (load16 h (n / 256 % 256) (n % 256)) ≡ n
unfolding htons
network16 little n b = omega arith
network16 big n b = omega arith

antenna_of-byte :
    (h : Host) (upper lower : ℕ)
    → lower < 16
    → antenna_of h (upper * 16 + lower) ≡ half_on h upper lower
antenna_of-byte little upper lower b = omega arith
antenna_of-byte big upper lower b = omega arith

pub fields-report_bytes :
    (h : Host) (s : Sent) → IsReport s → fields h (report_bytes s) ≡ ok (reported h s)
unfolding fields
fields-report_bytes h s r =
    let half : antenna_of h (s.antenna * 16 + s.antpad) ≡ antenna_on h s =
      antenna_of-byte h s.antenna s.antpad r.antpad in
    rw (
      past s.pad1 _ 18 r.pad1,
      past s.pad2 _ 17 r.pad2,
      past s.pad3 _ 15 r.pad3,
      past s.pad4 _ 4 r.pad4,
      past s.pad5 _ 26 r.pad5,
      past s.pad6 _ 6 r.pad6,
      past s.pad7 _ 12 r.pad7,
      past s.pad8 _ 26 r.pad8,
      network32 h s.modemid r.modemid,
      network16 h s.networkid r.networkid,
      half,
    )

-- Some bytes are taken from the front of a list that is long enough.
next8_total :
    (bs : Bytes) (n k : ℕ)
    → n + suc k ≤ length bs
    → (c : ℕ) × (rest : Bytes) × (next8 (drop n bs) ≡ ok (c, rest)) × (k ≤ length rest)
unfolding next8
next8_total [] n k h = absurd (omega arith)
next8_total (b ∷ bs) zero k h = (b, bs, refl, omega arith)
next8_total (b ∷ bs) (suc n) k h = next8_total bs n k (omega arith)

next16_total :
    (h : Host) (bs : Bytes) (n k : ℕ)
    → n + suc (suc k) ≤ length bs
    → (v : ℕ) × (rest : Bytes) × (next16 h (drop n bs) ≡ ok (v, rest)) × (k ≤ length rest)
unfolding next16
next16_total h [] n k e = absurd (omega arith)
next16_total h (a ∷ []) zero k e = absurd (omega arith)
next16_total h (a ∷ b ∷ bs) zero k e = (_, bs, refl, omega arith)
next16_total h (b ∷ bs) (suc n) k e = next16_total h bs n k (omega arith)

next_stamp_total :
    (h : Host) (bs : Bytes) (k : ℕ)
    → 10 + k ≤ length bs
    → (v : Stamp) × (rest : Bytes) × (next_stamp h bs ≡ ok (v, rest)) × (k ≤ length rest)
unfolding next_stamp
next_stamp_total h (a ∷ b ∷ c ∷ d ∷ e ∷ f ∷ g ∷ i ∷ j ∷ l ∷ rest) k n = (_, rest, refl, omega arith)
next_stamp_total h _ k n = absurd (omega arith)

fields_total : (h : Host) (bs : Bytes) → length bs ≡ 309 → (r : Report) × (fields h bs ≡ ok r)
unfolding fields
fields_total h bs size =
    let (stamp, r1, e1, n1) =
      next_stamp_total h (drop 18 bs) 281 (omega (arith, length-drop bs 18 (omega arith))) in
    let (s1, r2, e2, n2) = next8_total r1 17 263 n1 in
    let (bts, r3, e3, n3) = next8_total r2 15 247 n2 in
    let (net, r4, e4, n4) = next16_total h r3 4 241 n3 in
    let (ant, r5, e5, n5) = next8_total r4 26 214 n4 in
    let (s2, r6, e6, n6) = next8_total r5 6 207 n5 in
    let (snr, r7, e7, n7) = next8_total r6 12 194 n6 in
    let (temp, r8, e8, n8) = next8_total r7 26 167 n7 in
    rw (e1, e2, e3, e4, e5, e6, e7, e8) (_, refl)

-- What a round gives: a row for a datagram of the size of a report or more, and a warning else.
abbrev pub Answers : Host → Option Bytes → Output → Type 0
Answers h none out = out ≡ unexpected_size none
Answers h (some d) out =
    ((length d < 309) × (out ≡ unexpected_size (some (length d))))
    ⊎ ((309 ≤ length d) × ((r : Report) × (fields h (take 309 d) ≡ ok r) × (out ≡ row r)))

abbrev pub AllAnswer : Host → List (Option Bytes) → List Output → Type 0
AllAnswer h [] [] = Unit
AllAnswer h (i ∷ is) (o ∷ os) = Answers h i o × AllAnswer h is os
AllAnswer h _ _ = ⊥

abbrev answer : Host → Bytes → Run Output
answer h report =
    if length report == 309
    then (do r ← fields h report; ok (row r))
    else ok (unexpected_size (some (length report)))

answer_whole :
    (h : Host) (bs : Bytes) (r : Report)
    → length bs ≡ 309
    → fields h bs ≡ ok r
    → answer h bs ≡ ok (row r)
answer_whole h bs r size e = rw (size, e)

answer_short :
    (h : Host) (bs : Bytes)
    → length bs < 309
    → answer h bs ≡ ok (unexpected_size (some (length bs)))
answer_short h bs few = let other : (length bs == 309) ≡ false = ground arith in rw other

receive_total : (h : Host) (i : Option Bytes) → (o : Output) × (receive h i ≡ ok o) × Answers h i o
unfolding receive
receive_total h none = (unexpected_size none, refl, refl)
receive_total h (some d) = elim (Bool-cases (leb 309 (length d))) [
  | inl long ↦ whole (ground arith)
  | inr short ↦ part (ground arith)
]
  where
    whole : 309 ≤ length d → (o : Output) × (receive h (some d) ≡ ok o) × Answers h (some d) o
    whole enough =
        let size = length-take d 309 enough in
        let (r, e) = fields_total h (take 309 d) size in
        (row r, answer_whole h (take 309 d) r size e, inr (enough, (r, e, refl)))

    part : length d < 309 → (o : Output) × (receive h (some d) ≡ ok o) × Answers h (some d) o
    part few = (
      unexpected_size (some (length d)),
      ap (answer h) (take_all d 309 few) ∙ answer_short h d few,
      inl (few, refl),
    )

-- `receive_reports` answers every `recv` in order and reads nothing out of bounds: an error or a
-- datagram of fewer than 309 bytes with a warning and its length, and any other with the row of its
-- first 309 bytes.
pub receive_reports_total :
    (h : Host) (inputs : List (Option Bytes))
    → (outs : List Output) × (receive_reports h inputs ≡ ok outs) × AllAnswer h inputs outs
unfolding receive_reports
receive_reports_total h [] = ([], refl, tt)
receive_reports_total h (i ∷ is) =
    let (o, e, answer) = receive_total h i in
    let (os, es, answers) = receive_reports_total h is in (o ∷ os, rw (e, es), (answer, answers))
