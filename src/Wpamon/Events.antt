-- ===== src/Wpamon/Events.antt =====
-- The events that wpamon/wpamon.c reports.
use soml_apps.Common.{
  ℕ, suc, ◌≡◌, ◌≢◌, refl, ap, ◌∙◌, Bool, true, false, some, [], ◌∷◌, ◌++◌, arith, drop,
}
use soml_apps.Clib.Text.{Bytes, codes, same_text}
use soml_apps.Clib.Tokens.{
  strtok_r, starts_with, none_of, strtok_r-word, Tail, tail_text, strtok_r-tail,
}
use soml_apps.Wpamon.{
  is_blank, ends_priority, is_equals, nth_token, or_empty, bssid_of, handle, event_rows, row_of,
}

-- A word of a message.
abbrev pub Word : (ℕ → Bool) → Bytes → Type 0
Word is_delim w = (w ≢ []) × (none_of is_delim w ≡ true)

-- `<priority>CTRL-EVENT-CONNECTED - Connection to bssid rest`
abbrev pub connected_message : Bytes → Bytes → Tail → Bytes
connected_message priority bssid rest =
    priority
    ++ (b'>'
        ∷ (codes "CTRL-EVENT-CONNECTED"
            ++ (b' '
                ∷ (codes "-"
                    ++ (b' '
                        ∷ (codes "Connection"
                            ++ (b' '
                                ∷ (codes "to" ++ (b' ' ∷ (bssid ++ tail_text b' ' rest))))))))))

-- `<priority>CTRL-EVENT-DISCONNECTED bssid=bssid rest`
abbrev pub disconnected_message : Bytes → Bytes → Tail → Bytes
disconnected_message priority bssid rest =
    priority
    ++ (b'>'
        ∷ (codes "CTRL-EVENT-DISCONNECTED"
            ++ (b' ' ∷ (codes "bssid" ++ (b'=' ∷ (bssid ++ tail_text b' ' rest))))))

-- `<priority>CTRL-EVENT-BSS-ADDED id bssid rest`
abbrev pub added_message : Bytes → Bytes → Bytes → Tail → Bytes
added_message priority id bssid rest =
    priority
    ++ (b'>'
        ∷ (codes "CTRL-EVENT-BSS-ADDED"
            ++ (b' ' ∷ (id ++ (b' ' ∷ (bssid ++ tail_text b' ' rest))))))

event_rows_lem :
    (message event text bssid : Bytes)
    → starts_with event (codes "CTRL-EVENT-") ≡ true
    → bssid_of (drop 11 event) text ≡ some bssid
    → event_rows message event text
      ≡ record { event = event; bssid = bssid; full_string = message } ∷ []
unfolding event_rows row_of
event_rows_lem message event text bssid control found = rw (control, found)

-- A fresh message whose second token is an event of some kind.
handle_lem :
    (temp priority event text bssid : Bytes)
    → (let message = priority ++ (b'>' ∷ (event ++ (b' ' ∷ text))) in
        same_text temp message ≡ false
        → Word ends_priority priority
        → Word is_blank event
        → starts_with event (codes "CTRL-EVENT-") ≡ true
        → bssid_of (drop 11 event) text ≡ some bssid
        → handle temp message
          ≡ (record { event = event; bssid = bssid; full_string = message } ∷ [], message))
unfolding handle
handle_lem temp priority event text bssid fresh p e control found =
    let message = priority ++ (b'>' ∷ (event ++ (b' ' ∷ text))) in
    rw
      (
        fresh,
        strtok_r-word ends_priority priority b'>' (event ++ (b' ' ∷ text)) p.0 p.1 refl,
        strtok_r-word is_blank event b' ' text e.0 e.1 refl,
      )
      (ap (λ rows. (rows, message)) (event_rows_lem message event text bssid control found))

-- The token behind one word, and the one behind two more.
second_token :
    (is_delim : ℕ → Bool) (v w : Bytes) (d e : ℕ) (rest : Tail)
    → Word is_delim v
    → Word is_delim w
    → is_delim d ≡ true
    → is_delim e ≡ true
    → nth_token 1 is_delim (v ++ (d ∷ (w ++ tail_text e rest))) ≡ some w
second_token is_delim v w d e rest hv hw hd he =
    ap (λ r. (strtok_r is_delim r.1).0) (strtok_r-word is_delim v d _ hv.0 hv.1 hd)
    ∙ strtok_r-tail is_delim w e rest hw.0 hw.1 he

skip_two :
    (is_delim : ℕ → Bool) (n : ℕ) (v w : Bytes) (d e : ℕ) (rest : Bytes)
    → Word is_delim v
    → Word is_delim w
    → is_delim d ≡ true
    → is_delim e ≡ true
    → nth_token (suc (suc n)) is_delim (v ++ (d ∷ (w ++ (e ∷ rest)))) ≡ nth_token n is_delim rest
skip_two is_delim n v w d e rest hv hw hd he =
    ap (λ r. nth_token n is_delim (strtok_r is_delim r.1).1)
      (strtok_r-word is_delim v d _ hv.0 hv.1 hd)
    ∙ ap (λ r. nth_token n is_delim r.1) (strtok_r-word is_delim w e rest hw.0 hw.1 he)

-- The BSSID in what follows the events of the three kinds.
connected_bssid :
    (bssid : Bytes) (rest : Tail)
    → Word is_blank bssid
    → bssid_of (codes "CONNECTED") (
        codes "-"
        ++ (b' '
            ∷ (codes "Connection"
                ++ (b' ' ∷ (codes "to" ++ (b' ' ∷ (bssid ++ tail_text b' ' rest)))))))
      ≡ some bssid
unfolding bssid_of starts_with
connected_bssid bssid rest b =
    ap (λ o. some (or_empty o))
      (skip_two is_blank 1 (codes "-") (codes "Connection") b' ' b' ' _ ((λ e. cc), refl)
          ((λ e. cc), refl) refl refl
        ∙ second_token is_blank (codes "to") bssid b' ' b' ' rest ((λ e. cc), refl) b refl refl)

disconnected_bssid :
    (bssid : Bytes) (rest : Tail)
    → Word is_equals bssid
    → bssid_of (codes "DISCONNECTED") (codes "bssid" ++ (b'=' ∷ (bssid ++ tail_text b' ' rest)))
      ≡ some bssid
unfolding bssid_of starts_with
disconnected_bssid bssid rest b =
    ap (λ o. some (or_empty o))
      (second_token is_equals (codes "bssid") bssid b'=' b' ' rest ((λ e. cc), refl) b refl refl)

added_bssid :
    (id bssid : Bytes) (rest : Tail)
    → Word is_blank id
    → Word is_blank bssid
    → bssid_of (codes "BSS-ADDED") (id ++ (b' ' ∷ (bssid ++ tail_text b' ' rest))) ≡ some bssid
unfolding bssid_of starts_with
added_bssid id bssid rest i b =
    ap (λ o. some (or_empty o)) (second_token is_blank id bssid b' ' b' ' rest i b refl refl)

-- A message of CONNECTED, DISCONNECTED or BSS-ADDED that is not the last one, with words for the
-- priority, the entry and the BSSID, behind which the message may end, gives one row with the
-- event, the BSSID and the message, which is remembered.
pub handle-printed :
    (temp priority id bssid : Bytes) (rest : Tail)
    → Word ends_priority priority
    → Word is_blank id
    → Word is_equals bssid
    → (let said = connected_message priority bssid rest in
        let gone = disconnected_message priority bssid rest in
        let found = added_message priority id bssid rest in
        (same_text temp said ≡ false
          → handle temp said ≡ (
            record { event = codes "CTRL-EVENT-CONNECTED"; bssid = bssid; full_string = said } ∷ [],
            said,
          ))
        × (same_text temp gone ≡ false
            → handle temp gone ≡ (
              record { event = codes "CTRL-EVENT-DISCONNECTED"; bssid = bssid; full_string = gone }
                  ∷ [],
              gone,
            ))
        × (same_text temp found ≡ false
            → handle temp found ≡ (
              record { event = codes "CTRL-EVENT-BSS-ADDED"; bssid = bssid; full_string = found }
                  ∷ [],
              found,
            )))
unfolding starts_with
handle-printed temp priority id bssid rest p i b =
    let plain : Word is_blank bssid = (b.0, blank_of_equals bssid b.1) in
    (
      (λ fresh.
          handle_lem temp priority (codes "CTRL-EVENT-CONNECTED") _ bssid fresh p ((λ e. cc), refl)
            refl (connected_bssid bssid rest plain)),
      (λ fresh.
          handle_lem temp priority (codes "CTRL-EVENT-DISCONNECTED") _ bssid fresh p
            ((λ e. cc), refl) refl (disconnected_bssid bssid rest b)),
      (λ fresh.
          handle_lem temp priority (codes "CTRL-EVENT-BSS-ADDED") _ bssid fresh p ((λ e. cc), refl)
            refl (added_bssid id bssid rest i plain)),
    )
  where
    blank_of_equals : (w : Bytes) → none_of is_equals w ≡ true → none_of is_blank w ≡ true
    blank_of_equals [] h = refl
    blank_of_equals (c ∷ cs) h = ground (arith, blank_of_equals cs)
