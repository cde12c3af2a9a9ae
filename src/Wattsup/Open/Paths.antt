-- ===== src/Wattsup/Open/Paths.antt =====
-- The ways through `open_device` of wattsup/wattsup.c.
use soml_apps.Common.{
  ℕ, ◌≡◌, ◌≢◌, refl, ap, ◌∙◌, Bool-cases, Option-cases, Bool, true, false, not, ◌&&◌, Option, none,
  some, ◌⊎◌, inl, inr,
}
use soml_apps.Clib.Run.{success, failed, os_error}
use soml_apps.Wattsup.Open.{
  Stat, missing, directory, char_device, other_file, Directory, start, sysfs, dev, Kernel, Opened,
  open_device, moved, done, opened_node, check_access, check_node, enter_dev, check_class,
  enter_sysfs,
}

abbrev pub is_some : Option ℕ → Bool
is_some none = false
is_some (some n) = true

-- The directory in which the device is looked for, by the answers of two calls that nobody reads.
abbrev pub searched : Bool → Bool → Directory
searched true back = dev
searched false true = start
searched false false = sysfs

abbrev pub searched_by : Kernel → Directory
searched_by k = searched k.chdir_dev k.fchdir_back

-- The device file is open: a character device of a class entry that is a directory.
pub record IsOpen (k : Kernel) (o : Opened) : Type 0 where
  pub succeeded : o.status ≡ success
  pub class : k.stat_class ≡ directory
  pub node : k.stat_node (searched_by k) ≡ char_device
  pub access : k.access_node (searched_by k) ≡ true
  pub opened : k.open_node (searched_by k) ≡ some o.dev_fd

-- Success with no device open.
pub record IsUnopened (k : Kernel) (fd : ℕ) (o : Opened) : Type 0 where
  pub succeeded : o.status ≡ success
  pub class : k.stat_class ≢ directory
  pub same : o.dev_fd ≡ fd

-- An error, and no device open.
pub record IsRefused (fd : ℕ) (o : Opened) : Type 0 where
  pub refused : o.status ≡ failed os_error
  pub same : o.dev_fd ≡ fd

-- The three ways in which `open_device` ends.
abbrev pub Ends : Kernel → ℕ → Opened → Type 0
Ends k fd o = IsOpen k o ⊎ (IsUnopened k fd o ⊎ IsRefused fd o)

-- Where the program worked last, by what it found of the class entry.
abbrev pub worked_in : Stat → Kernel → Directory
worked_in directory k = searched_by k
worked_in _ k = sysfs

-- Whether it left the first directory.
abbrev pub has_left : Kernel → Bool
has_left k = is_some k.open_dot && k.chdir_sysfs

-- What becomes of the first directory and its descriptor.
abbrev pub Leaves : Kernel → Opened → Type 0
Leaves k o =
    (has_left k ≡ false → o.directory ≡ start)
    × (k.fchdir_done ≡ true → o.directory ≡ start)
    × (has_left k ≡ true → k.fchdir_done ≡ false → o.directory ≡ worked_in k.stat_class k)
    × (o.dot_open ≡ (is_some k.open_dot && not (k.chdir_sysfs && k.close_dot)))

-- The end at `Done`.
abbrev Done : Kernel → Directory → Opened → Type 0
Done k d o = (o.directory ≡ moved k.fchdir_done start d) × (o.dot_open ≡ not k.close_dot)

abbrev refused :
    {fd : ℕ} {o : Opened} {k : Kernel} → o.status ≡ failed os_error → o.dev_fd ≡ fd → Ends k fd o
refused e same = inr (inr (record { refused = e; same = same }))

searched_lem :
    (dev_done back : Bool) → moved dev_done dev (moved back start sysfs) ≡ searched dev_done back
searched_lem true back = refl
searched_lem false true = refl
searched_lem false false = refl

opened_node_lem :
    (k : Kernel) (fd : ℕ) (n : Option ℕ)
    → k.stat_class ≡ directory
    → k.stat_node (searched_by k) ≡ char_device
    → k.access_node (searched_by k) ≡ true
    → k.open_node (searched_by k) ≡ n
    → (let o = opened_node k (searched_by k) n fd in Done k (searched_by k) o × Ends k fd o)
unfolding opened_node
opened_node_lem k fd none c n a e = ((refl, refl), refused refl refl)
opened_node_lem k fd (some m) c n a e =
    ((refl, refl), inl (record { succeeded = refl; class = c; node = n; access = a; opened = e }))

check_access_lem :
    (k : Kernel) (fd : ℕ)
    → k.stat_class ≡ directory
    → k.stat_node (searched_by k) ≡ char_device
    → (let o = check_access k (searched_by k) fd in Done k (searched_by k) o × Ends k fd o)
unfolding check_access done
check_access_lem k fd c n = elim (Bool-cases (k.access_node (searched_by k))) [
  | inl yes_access ↦ rw yes_access (opened_node_lem k fd _ c n yes_access refl)
  | inr no_access ↦ rw no_access ((refl, refl), refused refl refl)
]

check_node_lem :
    (k : Kernel) (fd : ℕ) (s : Stat)
    → k.stat_class ≡ directory
    → k.stat_node (searched_by k) ≡ s
    → (let o = check_node s k (searched_by k) fd in Done k (searched_by k) o × Ends k fd o)
unfolding check_node done
check_node_lem k fd missing c e = ((refl, refl), refused refl refl)
check_node_lem k fd directory c e = ((refl, refl), refused refl refl)
check_node_lem k fd other_file c e = ((refl, refl), refused refl refl)
check_node_lem k fd char_device c e = check_access_lem k fd c e

check_class_lem :
    (k : Kernel) (fd : ℕ) (s : Stat)
    → k.stat_class ≡ s
    → (let o = check_class s k fd in Done k (worked_in s k) o × Ends k fd o)
unfolding check_class enter_dev done
check_class_lem k fd missing e = ((refl, refl), refused refl refl)
check_class_lem k fd char_device e =
    ((refl, refl), inr (inl (record { succeeded = refl; class = λ h. cc; same = refl })))
check_class_lem k fd other_file e =
    ((refl, refl), inr (inl (record { succeeded = refl; class = λ h. cc; same = refl })))
check_class_lem k fd directory e =
    rw (searched_lem k.chdir_dev k.fchdir_back) (check_node_lem k fd _ e refl)

Done-Leaves :
    (k : Kernel) (o : Opened)
    → is_some k.open_dot ≡ true
    → k.chdir_sysfs ≡ true
    → Done k (worked_in k.stat_class k) o
    → Leaves k o
Done-Leaves k o found entered (d, open_) = (
  (λ e. absurd (cc)),
  (λ back. d ∙ ap (λ b. moved b start (worked_in k.stat_class k)) back),
  (λ e stuck. d ∙ ap (λ b. moved b start (worked_in k.stat_class k)) stuck),
  rw (found, entered) open_,
)

entered_lem :
    (k : Kernel) (fd n : ℕ)
    → k.open_dot ≡ some n
    → k.chdir_sysfs ≡ true
    → open_device k fd ≡ check_class k.stat_class k fd
unfolding open_device enter_sysfs
entered_lem k fd n opened enters = rw (opened, enters) refl

-- `open_device` ends in the directory in which it began if it never left it or its last `fchdir`
-- succeeds, and otherwise stays in the class directory or where it looked for the device; it keeps
-- the descriptor of the first directory exactly if the first `chdir` or `close` fails. It opens a
-- character device in `/dev`, or in the directory in which two calls with answers nobody reads have
-- left it, of a class entry that is a directory; or it reports success with nothing open where the
-- class entry is no directory, or an error.
pub open_device-Leaves :
    (k : Kernel) (fd : ℕ) → Leaves k (open_device k fd) × Ends k fd (open_device k fd)
unfolding open_device enter_sysfs
open_device-Leaves k fd = elim (Option-cases k.open_dot) [
  | inl none_open ↦
      rw none_open (((λ e. refl), (λ e. refl), (λ e f. absurd (cc)), refl), refused refl refl)
  | inr (n, opened) ↦ elim (Bool-cases k.chdir_sysfs) [
    | inr stays ↦
        rw (opened, stays)
          (((λ e. refl), (λ e. refl), (λ e f. absurd (cc)), refl), refused refl refl)
    | inl enters ↦
        let o = check_class k.stat_class k fd in
        let (finished, ends) = check_class_lem k fd k.stat_class refl in
        rw (entered_lem k fd n opened enters)
          (Done-Leaves k o (ap is_some opened) enters finished, ends)
  ]
]
