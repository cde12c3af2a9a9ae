-- ===== src/Wattsup/Open.antt =====
-- `open_device` of wattsup/wattsup.c, over what the kernel answers, and `setup_serial_device`.
pub mod Paths
use soml_apps.Common.{ℕ, Bool, true, false, not, Option, none, some, if◌then◌else◌}
use soml_apps.Clib.Run.{Status, success, failed, os_error}

-- What `stat` finds.
pub data Stat : Type 0 where
  missing directory char_device other_file : Stat

-- The working directory.
pub data Directory : Type 0 where
  start sysfs dev : Directory

-- The answers of the system calls, in their order. What is asked about the device is answered by the
-- working directory.
pub record Kernel : Type 0 where
  pub open_dot : Option ℕ
  pub chdir_sysfs : Bool
  pub stat_class : Stat
  pub fchdir_back : Bool
  pub chdir_dev : Bool
  pub stat_node : Directory → Stat
  pub access_node : Directory → Bool
  pub open_node : Directory → Option ℕ
  pub fchdir_done : Bool
  pub close_dot : Bool

-- The result, `*dev_fd`, the working directory, and whether the descriptor of the directory in
-- which the program started is still open.
pub record Opened : Type 0 where
  pub status : Status
  pub dev_fd : ℕ
  pub directory : Directory
  pub dot_open : Bool

-- The working directory after a call, which changes nothing if it fails.
abbrev pub moved : Bool → Directory → Directory → Directory
moved true to from = to
moved false to from = from

-- `Done`, in a working directory: back to the first directory, and its descriptor closed, if the
-- calls succeed.
unfoldable pub done : Kernel → Directory → Status → ℕ → Opened
done k d status fd = record {
  status = status;
  dev_fd = fd;
  directory = moved k.fchdir_done start d;
  dot_open = not k.close_dot;
}

opened_node : Kernel → Directory → Option ℕ → ℕ → Opened
unfolding done
opened_node k d none fd = done k d (failed os_error) fd
opened_node k d (some n) fd = done k d success n

check_access : Kernel → Directory → ℕ → Opened
unfolding opened_node
check_access k d fd =
    if k.access_node d then opened_node k d (k.open_node d) fd else done k d (failed os_error) fd

check_node : Stat → Kernel → Directory → ℕ → Opened
unfolding check_access
check_node missing k d fd = done k d (failed os_error) fd
check_node char_device k d fd = check_access k d fd
check_node _ k d fd = done k d (failed os_error) fd

-- `fchdir(cur_fd)` and `chdir("/dev")`, whose answers are ignored.
enter_dev : Kernel → ℕ → Opened
unfolding check_node
enter_dev k fd =
    let d = moved k.chdir_dev dev (moved k.fchdir_back start sysfs) in
    check_node (k.stat_node d) k d fd

-- A class entry that is no directory leaves `ret` at the 0 of `stat`.
check_class : Stat → Kernel → ℕ → Opened
unfolding enter_dev
check_class missing k fd = done k sysfs (failed os_error) fd
check_class directory k fd = enter_dev k fd
check_class _ k fd = done k sysfs success fd

enter_sysfs : Kernel → ℕ → Opened
unfolding check_class
enter_sysfs k fd =
    if k.chdir_sysfs
    then check_class k.stat_class k fd
    else record { status = failed os_error; dev_fd = fd; directory = start; dot_open = true }

unfoldable pub open_device : Kernel → ℕ → Opened
unfolding enter_sysfs
open_device k fd = elim k.open_dot [
  | none ↦ record { status = failed os_error; dev_fd = fd; directory = start; dot_open = false }
  | some dot ↦ enter_sysfs k fd
]

-- `setup_serial_device`: the answers of `tcgetattr` and `tcsetattr`.
unfoldable pub setup_serial_device : Bool → Bool → Status
setup_serial_device got set =
    if got then (if set then success else failed os_error) else failed os_error
