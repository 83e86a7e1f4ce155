-- ===== src/Sys/LocalDisk.antt =====
-- LocalDisk of pkg/util/sys/device.go, with the fields that the package sets, and how
-- populateDeviceInfo and populateDeviceUdevInfo of disks.go fill them from lsblk's and udev's answers.
use nativestor.Prelude.{
  ℕ, ◌^◌, ◌%◌, ◌-◌, String, ◌==◌, ◌||◌, Bool, false, List, [], ◌∷◌, Option, none, some,
  if◌then◌else◌,
}
use nativestor.Prelude.Int.{ℤ, pos, negsuc, two_64}
use nativestor.Prelude.Maps.{Map, lookup}
use nativestor.Prelude.Texts.{split}
use nativestor.Errors.{Result, ok, err}
use nativestor.Sys.Device.{Library, disk_type, part_type, loop_type}

pub record LocalDisk : Type 0 where
  pub name : String
  pub parent : String
  pub dev_links : String
  pub size : ℕ
  pub uuid : String
  pub serial : String
  pub type_name : String
  pub rotational : Bool
  pub readonly : Bool
  pub filesystem : String
  pub vendor : String
  pub model : String
  pub wwn : String
  pub wwn_vendor_extension : String
  pub real_path : String
  pub mount_point : String
  pub kernel_name : String
  pub major : ℕ
  pub minor : ℕ

abbrev pub blank : String → String → LocalDisk
blank name uuid = record {
  name = name;
  parent = "";
  dev_links = "";
  size = 0;
  uuid = uuid;
  serial = "";
  type_name = "";
  rotational = false;
  readonly = false;
  filesystem = "";
  vendor = "";
  model = "";
  wwn = "";
  wwn_vendor_extension = "";
  real_path = "";
  mount_point = "";
  kernel_name = "";
  major = 0;
  minor = 0;
}

-- supportedDeviceType
abbrev pub supported_device_type : String → Bool
supported_device_type device =
    (device == disk_type)
    || (device == "ssd")
    || (device == "crypt")
    || (device == "mpath")
    || (device == part_type)
    || (device == "linear")
    || (device == loop_type)

-- `if val, ok := props[key]; ok { ... }`
abbrev on_key : String → Map String → (String → LocalDisk → LocalDisk) → LocalDisk → LocalDisk
on_key key props f disk = elim (lookup key props) [ none ↦ disk | some val ↦ f val disk ]

abbrev on_some : {A : Type 0} → Option A → (A → LocalDisk → LocalDisk) → LocalDisk → LocalDisk
on_some none f disk = disk
on_some (some a) f disk = f a disk

-- uint32 of an int
abbrev uint_32 : ℤ → ℕ
uint_32 (pos n) = n % 2 ^ 32
uint_32 (negsuc n) = (two_64 - 1 - n % two_64) % 2 ^ 32

module _ (library : Library) where
  -- what populateDeviceInfo reads from the properties, but for the numbers of the device
  unfoldable pub fill_info : Map String → LocalDisk → LocalDisk
  unfolding lookup
  fill_info props disk =
      on_key "MOUNTPOINT" props
        (λ val d. if val == "" then d else record d { mount_point = library.base val })
        (on_key "KNAME" props (λ val d. record d { kernel_name = library.base val })
          (on_key "NAME" props (λ val d. record d { real_path = val })
            (on_key "PKNAME" props
              (λ val d. if val == "" then d else record d { parent = library.base val })
              (on_key "RO" props
                (λ val. on_some (library.parse_bool val) (λ b d. record d { readonly = b }))
                (on_key "ROTA" props
                  (λ val. on_some (library.parse_bool val) (λ b d. record d { rotational = b }))
                  (on_key "SIZE" props
                    (λ val. on_some (library.parse_uint val) (λ n d. record d { size = n }))
                    (on_key "TYPE" props (λ val d. record d { type_name = val }) disk)))))))

  abbrev numbered : List String → LocalDisk → Result LocalDisk
  numbered (first ∷ second ∷ []) disk = elim (library.atoi first) [
    | err e ↦ err e
    | ok major ↦ elim (library.atoi second) [
      | err e ↦ err e
      | ok minor ↦ ok (record disk { major = uint_32 major; minor = uint_32 minor })
    ]
  ]
  numbered _ disk = ok disk

  -- the numbers of the device
  unfoldable pub fill_numbers : Map String → LocalDisk → Result LocalDisk
  unfolding lookup split
  fill_numbers props disk = elim (lookup "MAJ:MIN" props) [
    | none ↦ ok disk
    | some val ↦ if val == "" then ok disk else numbered (split b':' val) disk
  ]

-- what populateDeviceUdevInfo reads
unfoldable pub fill_udev : Map String → LocalDisk → LocalDisk
unfolding lookup
fill_udev info disk =
    on_key "ID_WWN" info (λ val d. record d { wwn = val })
      (on_key "ID_WWN_WITH_EXTENSION" info (λ val d. record d { wwn_vendor_extension = val })
        (on_key "ID_MODEL" info (λ val d. record d { model = val })
          (on_key "ID_VENDOR" info (λ val d. record d { vendor = val })
            (on_key "ID_SERIAL" info (λ val d. record d { serial = val })
              (on_key "ID_FS_TYPE" info (λ val d. record d { filesystem = val })
                (on_key "DEVLINKS" info (λ val d. record d { dev_links = val }) disk))))))
