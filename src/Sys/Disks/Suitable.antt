-- ===== src/Sys/Disks/Suitable.antt =====
-- Which disks GetAvailableDevices lists.
use Prim.Native.String.{◌++◌}
use nativestor.Prelude.{
  String, ◌≤◌, ==-self, ◌≡◌, refl, Bool, true, false, List, [], ◌∷◌, All, Among, All-Among, arith,
  eq_iff, if◌then◌else◌,
}
use nativestor.Prelude.Maps.{Map, insert, insert-All, has, has-insert}
use nativestor.Exec.{Call, Executor, done, pure}
use nativestor.Exec.Steps.{>>=-eq-done}
use nativestor.Sys.Device.{Library}
use nativestor.Sys.LocalDisk.{LocalDisk}
use nativestor.Sys.Disks.{
  two_gib, is_suitable, keep_available, discover_devices, get_available_devices,
}

-- A disk of 2 GiB or more with no filesystem and no mount point.
abbrev pub IsFit : LocalDisk → Type 0
IsFit disk = (two_gib ≤ disk.size) × (disk.filesystem ≡ "") × (disk.mount_point ≡ "")

suitable-IsFit : (d : LocalDisk) → is_suitable d ≡ true → IsFit d
suitable-IsFit d h =
    (ground arith, ground (arith, eq_iff d.filesystem ""), ground (arith, eq_iff d.mount_point ""))

IsFit-suitable : (d : LocalDisk) → IsFit d → is_suitable d ≡ true
IsFit-suitable d (size, plain, unmounted) =
    ground (arith, eq_iff d.filesystem "", eq_iff d.mount_point "")

-- An entry for such a disk, one of those that were discovered, under its path in /dev.
abbrev pub IsEntryOf : List LocalDisk → String × LocalDisk → Type 0
IsEntryOf ds (key, disk) = Among ds disk × IsFit disk × (key ≡ "/dev/" ++ disk.name)

keep_available-IsEntryOf :
    (discovered ds : List LocalDisk) (m : Map LocalDisk)
    → All (Among discovered) ds
    → All (IsEntryOf discovered) m
    → All (IsEntryOf discovered) (keep_available ds m)
unfolding keep_available
keep_available-IsEntryOf discovered [] m among h = h
keep_available-IsEntryOf discovered (d ∷ ds) m (here, among) h =
    keep_available-IsEntryOf discovered ds _ among (by_test (is_suitable d) refl)
  where
    by_test :
        (b : Bool)
        → is_suitable d ≡ b
        → All (IsEntryOf discovered) (if b then insert ("/dev/" ++ d.name) d m else m)
    by_test true e =
        insert-All (IsEntryOf discovered) ("/dev/" ++ d.name) d m (here, suitable-IsFit d e, refl) h
    by_test false e = h

-- The loop takes no entry away, and adds one for each disk that fits.
keep_available-has :
    (key : String) (ds : List LocalDisk) (m : Map LocalDisk)
    → has key m ≡ true
    → has key (keep_available ds m) ≡ true
unfolding keep_available
keep_available-has key [] m h = h
keep_available-has key (d ∷ ds) m h = keep_available-has key ds _ (by_test (is_suitable d))
  where
    inserted : (b : Bool) → (if b then true else has key m) ≡ true
    inserted true = refl
    inserted false = h

    by_test : (b : Bool) → has key (if b then insert ("/dev/" ++ d.name) d m else m) ≡ true
    by_test true = rw (has-insert ("/dev/" ++ d.name) key d m) (inserted _)
    by_test false = h

abbrev IsListedIn : Map LocalDisk → LocalDisk → Type 0
IsListedIn m d = IsFit d → has ("/dev/" ++ d.name) m ≡ true

keep_available-IsListedIn :
    (ds : List LocalDisk) (m : Map LocalDisk) → All (IsListedIn (keep_available ds m)) ds
unfolding keep_available
keep_available-IsListedIn [] m = tt
keep_available-IsListedIn (d ∷ ds) m =
    (λ fit. kept (IsFit-suitable d fit), keep_available-IsListedIn ds _)
  where
    kept :
        is_suitable d ≡ true
        → has
            ("/dev/" ++ d.name)
            (keep_available ds (if is_suitable d then insert ("/dev/" ++ d.name) d m else m))
          ≡ true
    kept e = rw e (
        keep_available-has ("/dev/" ++ d.name) ds (insert ("/dev/" ++ d.name) d m) (
          rw (has-insert ("/dev/" ++ d.name) ("/dev/" ++ d.name) d m, ==-self ("/dev/" ++ d.name))
            refl))

module _ (library : Library) (executor : Executor) where
  -- A GetAvailableDevices that succeeds has discovered some disks. Each entry that it lists is one of
  -- them, of 2 GiB or more with no filesystem and no mount point, under the path of its name in /dev;
  -- and each of them that is so is listed under that path, or another of the same name is.
  pub get_available_devices-All :
      (calls : List Call) (m : Map LocalDisk)
      → (get_available_devices library executor calls).0 ≡ done m
      → (ds : List LocalDisk) × ((discover_devices library executor false calls).0 ≡ done ds)
        × All (IsEntryOf ds) m
        × All (λ d. IsFit d → has ("/dev/" ++ d.name) m ≡ true) ds
  unfolding get_available_devices
  get_available_devices-All calls m h =
      let (ds, discovered, kept, eq) =
        >>=-eq-done (discover_devices library executor false) (λ ds. pure (keep_available ds []))
          calls h in
      let is_kept : m ≡ keep_available ds [] = cc kept in
      (
        ds,
        discovered,
        rw is_kept (keep_available-IsEntryOf ds ds [] (All-Among ds) tt),
        rw is_kept (keep_available-IsListedIn ds []),
      )
