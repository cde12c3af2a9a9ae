-- ===== src/Wpamon/Ends.antt =====
-- The loop of wpamon/wpamon.c on its input, and how the program ends.
use soml_apps.Common.{
  ℕ, zero, suc, ◌-◌, ◌≤◌, ◌<◌, ◌≡◌, ◌≢◌, ◌↔◌, ◌⊎◌, refl, ap, sym, Bool, ◌&&◌, true, false, Option,
  none, some, List, [], ◌∷◌, arith, leb, ◌==◌, length, take, Bool-cases, inl, inr, take_all,
  if◌then◌else◌,
}
use soml_apps.Clib.Run.{Run, ok, fault, ◌>>=◌}
use soml_apps.Clib.Text.{Bytes, until_nul, same_text}
use soml_apps.Clib.Tokens.{strtok_r, chopped}
use soml_apps.Wpamon.{
  EventRow, is_blank, ends_priority, handle, handle_event, receive, Recv, datagram, event_loop,
  Heard, Exit, exits, listening, more, Options, System, Ending, attach, main, path_in, local_name,
  remote_name, finish, listen, cleanup, failed, closed,
}

take-length : (bytes : Bytes) (n : ℕ) → n ≤ length bytes → length (take n bytes) ≡ n
take-length bytes zero h = refl
take-length [] (suc n) h = absurd (omega arith)
take-length (b ∷ bs) (suc n) h = ap suc (take-length bs n (omega arith))

-- The NUL goes behind the buffer exactly where the datagram fills it.
pub receive_fault : (temp bytes : Bytes) → (receive temp bytes ≡ fault) ↔ (100 ≤ length bytes)
unfolding receive
receive_fault temp bytes = elim (Bool-cases (leb 100 (length bytes))) [
  | inl long ↦
      let enough : 100 ≤ length bytes = ground arith in
      rw (take-length bytes 100 enough) ((λ e. enough), (λ h. refl))
  | inr short ↦
      let few : length bytes < 100 = ground arith in
      rw (take_all bytes 100 few, short) ((λ e. absurd (cc)), (λ h. absurd (omega arith)))
]

same_text_self : (text : Bytes) → same_text text text ≡ true
unfolding same_text
same_text_self [] = refl
same_text_self (c ∷ cs) = ground (arith, same_text_self cs)

handle_event_again :
    (temp message : Bytes) (o : Option Bytes) (text : Bytes)
    → (strtok_r is_blank (strtok_r ends_priority message).1) ≡ (o, text)
    → handle (handle_event message (o, text)).1 message ≡ ([], (handle_event message (o, text)).1)
unfolding handle
handle_event_again temp message none text e =
    elim (Bool-cases (same_text (chopped ends_priority message) message)) [
      | inl same ↦ rw same
      | inr other ↦ rw (other, e)
    ]
handle_event_again temp message (some event) text e = rw (same_text_self message)

-- A message that comes again gives nothing.
handle-handle :
    (temp message : Bytes) → handle (handle temp message).1 message ≡ ([], (handle temp message).1)
unfolding handle
handle-handle temp message = elim (Bool-cases (same_text temp message)) [
  | inl same ↦ rw (same, same)
  | inr other ↦
      let second = strtok_r is_blank (strtok_r ends_priority message).1 in
      rw other (handle_event_again temp message second.0 second.1 refl)
]

more-nil : (h : Run Heard) → more [] h ≡ h
unfolding more
more-nil (ok h) = refl
more-nil fault = refl

receive_cases :
    (bytes : Bytes)
    → ((temp : Bytes) → receive temp bytes ≡ fault)
      ⊎ ((m : Bytes) × ((temp : Bytes) → receive temp bytes ≡ ok (handle temp m)))
unfolding receive
receive_cases bytes = elim (Bool-cases (leb 100 (length (take 100 bytes)))) [
  | inl full ↦ inl (λ temp. rw full)
  | inr room ↦ inr (until_nul (take 100 bytes), λ temp. rw room)
]

-- A datagram that comes twice in a row, with no signal, counts once: the loop gives the same rows,
-- and is left in the same way, as if it had come once.
pub event_loop_again :
    (b : ℕ) (bytes temp : Bytes) (rest : List Recv)
    → event_loop (datagram (b ∷ bytes) false ∷ datagram (b ∷ bytes) false ∷ rest) temp
      ≡ event_loop (datagram (b ∷ bytes) false ∷ rest) temp
unfolding event_loop
event_loop_again b bytes temp rest = elim (receive_cases (b ∷ bytes)) [
  | inl over ↦ rw (over temp)
  | inr (m, fine) ↦
      let (rows, temp') = handle temp m in
      let once : handle temp' m ≡ ([], temp') = handle-handle temp m in
      rw (fine temp, fine temp', once) (ap (more rows) (more-nil (event_loop rest temp')))
]

-- The loop is left by a signal or the server, or by an error of `recv`.
abbrev pub LeavesWith : Exit → ℕ → Type 0
LeavesWith exit status = ((exit ≡ exits 1) × (status ≡ 0)) ⊎ ((exit ≡ exits 4) × (status ≡ 3))

abbrev Left : Run Heard → Type 0
Left fault = Unit
Left (ok h) = (h.exit ≡ listening) ⊎ ((h.exit ≡ exits 1) ⊎ (h.exit ≡ exits 4))

more-Left : (rows : List EventRow) (r : Run Heard) → Left r → Left (more rows r)
unfolding more
more-Left rows (ok g) left = left
more-Left rows fault left = tt

event_loop-Left : (input : List Recv) (temp : Bytes) → Left (event_loop input temp)
unfolding event_loop
event_loop-Left [] temp = inl refl
event_loop-Left (failed ∷ rest) temp = inr (inr refl)
event_loop-Left (closed ∷ rest) temp = inr (inl refl)
event_loop-Left (datagram [] signalled ∷ rest) temp = inr (inl refl)
event_loop-Left (datagram (b ∷ bytes) true ∷ rest) temp = elim (receive_cases (b ∷ bytes)) [
  | inl over ↦ rw (over temp) tt
  | inr (m, fine) ↦ rw (fine temp) (inr (inl refl))
]
event_loop-Left (datagram (b ∷ bytes) false ∷ rest) temp = elim (receive_cases (b ∷ bytes)) [
  | inl over ↦ rw (over temp) tt
  | inr (m, fine) ↦
      let (rows, temp') = handle temp m in
      rw (fine temp) (more-Left rows (event_loop rest temp') (event_loop-Left rest temp'))
]

exits_eq : (n m : ℕ) → exits n ≡ exits m → n ≡ m
exits_eq n m e = cc

left_lem :
    (path : Bytes) (rows : List EventRow) (exit : Exit) {e : Ending}
    → (exit ≡ listening) ⊎ ((exit ≡ exits 1) ⊎ (exit ≡ exits 4))
    → ok (finish path rows exit) ≡ ok (some e)
    → (e.removed ≡ path) × (e.rows ≡ rows) × LeavesWith exit e.status
unfolding finish
left_lem path rows listening left eq = absurd (cc)
left_lem path rows (exits n) {e} left eq =
    let same : e ≡ record { rows = rows; removed = path; status = n - 1 } = cc in
    let status : e.status ≡ n - 1 = ap (λ d. d.status) same in
    (
      ap (λ d. d.removed) same,
      ap (λ d. d.rows) same,
      elim left [
        | inl on ↦ absurd (cc)
        | inr (inl one) ↦ inl (one, omega (arith, status, exits_eq n 1 one))
        | inr (inr four) ↦ inr (four, omega (arith, status, exits_eq n 4 four))
      ],
    )

-- What `main` says once the loop is left.
finish_lem :
    (path : Bytes) (r : Run Heard) {e : Ending}
    → Left r
    → (r >>= λ h. ok (finish path h.rows h.exit)) ≡ ok (some e)
    → (e.removed ≡ path)
      × ((h : Heard) × (r ≡ ok h) × (e.rows ≡ h.rows) × LeavesWith h.exit e.status)
unfolding finish
finish_lem path fault left eq = cc
finish_lem path (ok h) left eq =
    let (removed, rows, leaves) = left_lem path h.rows h.exit left eq in
    (removed, (h, refl, rows, leaves))

abbrev EndsAt : ℕ → Run Bytes → List Recv → Ending → Type 0
EndsAt n local input e =
    (local ≡ ok e.removed)
    × (((n ≢ 0) × (e.status ≡ n - 1) × (e.rows ≡ []))
        ⊎ ((n ≡ 0)
            × ((h : Heard) × (event_loop input [] ≡ ok h)
                × (e.rows ≡ h.rows)
                × LeavesWith h.exit e.status)))

not_zero : (n : ℕ) → (n == 0) ≡ false → n ≢ 0
not_zero n h e = ground arith

ends_at :
    (n : ℕ) (local remote : Run Bytes) (input : List Recv) {e : Ending}
    → (local >>= λ path. remote >>= λ other. if n == 0 then listen input path else cleanup path n)
      ≡ ok (some e)
    → EndsAt n local input e
unfolding listen
ends_at n fault remote input f = cc
ends_at n (ok path) fault input f = cc
ends_at n (ok path) (ok other) input {e} f = elim (Bool-cases (n == 0)) [
  | inl reached ↦
      let (removed, left) =
        finish_lem path (event_loop input []) (event_loop-Left input []) (rw reached at f) in
      (ap ok (sym removed), inr (ground arith, left))
  | inr jumped ↦
      let same : e ≡ record { rows = []; removed = path; status = n - 1 } = jump (rw jumped at f) in
      (
        ap (λ d. ok d.removed) (sym same),
        inl (not_zero n jumped, ap (λ d. d.status) same, ap (λ d. d.rows) same),
      )
]
  where
    jump : cleanup path n ≡ ok (some e) → e ≡ record { rows = []; removed = path; status = n - 1 }
    jump g = cc

-- The socket is there, has its own path, and is connected to the server.
abbrev pub has_server : System → Bool
has_server sys = sys.socket && (sys.bind && sys.connect)

-- The exit status by the calls.
by_call :
    {Listened : Type 0} {status : ℕ} {nothing : Type 0} (socket bind connect send : Bool)
    → (let n = attach (record { socket = socket; bind = bind; connect = connect; send = send }) in
        ((n ≢ 0) × (status ≡ n - 1) × nothing) ⊎ ((n ≡ 0) × Listened))
    → (let there = socket && (bind && connect) in
        ((there ≡ false) × (status ≡ 1) × nothing)
        ⊎ (((there ≡ true) × (send ≡ false) × (status ≡ 2) × nothing)
            ⊎ ((there ≡ true) × (send ≡ true) × Listened)))
by_call false bind connect send (inl (n, s, r)) = inl (refl, s, r)
by_call false bind connect send (inr (n, l)) = absurd (cc)
by_call true false connect send (inl (n, s, r)) = inl (refl, s, r)
by_call true false connect send (inr (n, l)) = absurd (cc)
by_call true true false send (inl (n, s, r)) = inl (refl, s, r)
by_call true true false send (inr (n, l)) = absurd (cc)
by_call true true true false (inl (n, s, r)) = inr (inl (refl, refl, s, r))
by_call true true true false (inr (n, l)) = absurd (cc)
by_call true true true true (inl (n, s, r)) = absurd (n refl)
by_call true true true true (inr (n, l)) = inr (inr (refl, refl, l))

-- Where `main` of wpamon.c ends, it has removed the local socket, and either a call failed before
-- the loop, nothing was injected, and the status is 1 if `socket`, `bind` or `connect` failed and 2
-- if only `send` did, or all calls succeeded, the rows are those of the loop and the status is 0 if
-- a signal or the server left it and 3 if `recv` failed.
pub main_ends :
    (sys : System) (opts : Options) (input : List Recv) {e : Ending}
    → main sys opts input ≡ ok (some e)
    → (path_in opts.local_path (local_name opts.interface) ≡ ok e.removed)
      × (((has_server sys ≡ false) × (e.status ≡ 1) × (e.rows ≡ []))
          ⊎ (((has_server sys ≡ true) × (sys.send ≡ false) × (e.status ≡ 2) × (e.rows ≡ []))
              ⊎ ((has_server sys ≡ true)
                  × (sys.send ≡ true)
                  × ((h : Heard) × (event_loop input [] ≡ ok h)
                      × (e.rows ≡ h.rows)
                      × LeavesWith h.exit e.status))))
unfolding main
main_ends sys opts input {e} eq =
    let (removed, ends) =
      ends_at (attach sys) (path_in opts.local_path (local_name opts.interface))
        (path_in opts.ctrl_interface (remote_name opts.interface)) input eq in
    (removed, by_call sys.socket sys.bind sys.connect sys.send ends)
