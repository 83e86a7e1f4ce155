-- ===== src/Discover/Publish/Held.antt =====
-- A device that a volume holds outlives the publishing of its node's disks.
use nativestor.Prelude.{
  String, ◌==◌, ◌&&◌, ◌≡◌, ◌≢◌, refl, sym, ap, ◌∙◌, Bool, true, false, not, select, List, [], ◌∷◌,
  Option, none, some, All, eq_iff, if◌then◌else◌,
}
use nativestor.Errors.{Error, Result, ok, err, ErrorTests}
use nativestor.Sys.Disks.{LocalDiskAppendInfo}
use nativestor.Csi.Device.{RawDevice, label_is, matches}
use nativestor.Discover.Publish.{
  DaemonApi, Daemon, convert_disk_to_raw_device, or_refuse, update_found, or_update,
  create_or_update_raw_device, publish_each, is_published, last_error, delete_each, delete_listed,
  check_raw_device_deleted, publish,
}
use nativestor.Discover.Publish.Store.{
  holder, IsStore, holder-put_spec, holder-append, holder-without, select-holder,
}

module _ {W : Type 0} (api : DaemonApi W) (tests : ErrorTests) (store : IsStore api) (n v : String)
    (named : v ≢ "") where
  open store use {devices}

  -- the volume holds the device
  abbrev pub Holds : W → Type 0
  Holds w = holder n (devices w) ≡ v

  create-Holds : (d : RawDevice) (w : W) → Holds w → Holds (api.create d w).1
  create-Holds d w h = by_answer (api.create d w).0 refl
    where
      by_answer : (r : Result RawDevice) → (api.create d w).0 ≡ r → Holds (api.create d w).1
      by_answer (ok d') e =
          rw (store.created d d' w e)
            (holder-append n (devices w) (d ∷ []) (λ z. named (sym h ∙ z)) ∙ h)
      by_answer (err x) e = rw (store.uncreated d w x e) h

  update-Holds : (d : RawDevice) (w : W) → Holds w → Holds (api.update d w).1
  update-Holds d w h = by_answer (api.update d w).0 refl
    where
      by_answer : (r : Result RawDevice) → (api.update d w).0 ≡ r → Holds (api.update d w).1
      by_answer (ok d') e = rw (store.updated d d' w e) (holder-put_spec n d (devices w) ∙ h)
      by_answer (err x) e = rw (store.unchanged d w x e) h

  refuse-Holds :
      (e : Error) (p : Result RawDevice × W) → Holds p.1 → Holds (or_refuse api tests e p).1
  refuse-Holds e (ok updated, w) h = h
  refuse-Holds e (err f, w) h = h

  create_or_update-Holds :
      (d : RawDevice) (w : W) → Holds w → Holds (create_or_update_raw_device api tests d w).1
  unfolding create_or_update_raw_device
  create_or_update-Holds d w h =
      by_answer (api.create d w).0 (api.create d w).1 (create-Holds d w h)
    where
      found :
          (e : Error) (r : Result RawDevice) (w : W)
          → Holds w
          → Holds (update_found api tests e d r w).1
      found e (err f) w k = k
      found e (ok old) w k =
          refuse-Holds e (api.update (record old { spec = d.spec }) w)
            (update-Holds (record old { spec = d.spec }) w k)

      by_answer : (r : Result RawDevice) (w : W) → Holds w → Holds (or_update api tests d r w).1
      by_answer (ok created) w k = k
      by_answer (err e) w k = by_test (tests.is_already_exists e)
        where
          by_test :
              (b : Bool)
              → Holds (if b then update_found api tests e d (api.get d.name w) w else (err e, w)).1
          by_test true = found e (api.get d.name w) w k
          by_test false = k

  publish_each-Holds :
      (m : Daemon) (disks : List LocalDiskAppendInfo) (w : W)
      → Holds w
      → Holds (publish_each api tests m disks w)
  unfolding publish_each
  publish_each-Holds m [] w h = h
  publish_each-Holds m (disk ∷ disks) w h =
      publish_each-Holds m disks
        (create_or_update_raw_device api tests (convert_disk_to_raw_device m disk) w).1
        (create_or_update-Holds (convert_disk_to_raw_device m disk) w h)

  -- The device that a listed one names is in no volume, or in the volume that the list says.
  abbrev AsListed : W → RawDevice → Type 0
  AsListed w d = d.status.name ≡ "" → holder d.name (devices w) ≡ ""

  delete-free :
      (m other : String) (w : W)
      → holder other (devices w) ≡ ""
      → holder other (devices (api.delete m w).1) ≡ ""
  delete-free m other w h = by_answer (api.delete m w).0 refl
    where
      by_answer :
          (o : Option Error)
          → (api.delete m w).0 ≡ o
          → holder other (devices (api.delete m w).1) ≡ ""
      by_answer (some x) e = rw (store.undeleted m w x e) h
      by_answer none e =
          rw (store.deleted m w e, holder-without other m (devices w)) (by_test (m == other))
        where
          by_test : (b : Bool) → (if b then "" else holder other (devices w)) ≡ ""
          by_test true = refl
          by_test false = h

  delete-Holds :
      (m : String) (w : W) → holder m (devices w) ≡ "" → Holds w → Holds (api.delete m w).1
  delete-Holds m w free h = by_answer (api.delete m w).0 refl
    where
      by_answer : (o : Option Error) → (api.delete m w).0 ≡ o → Holds (api.delete m w).1
      by_answer (some x) e = rw (store.undeleted m w x e) h
      by_answer none e =
          rw (store.deleted m w e, holder-without n m (devices w)) (by_test (m == n) refl)
        where
          by_test : (b : Bool) → (m == n) ≡ b → (if b then "" else holder n (devices w)) ≡ v
          by_test true t =
              absurd
                (named (sym h ∙ (ap (λ k. holder k (devices w)) (sym ((eq_iff m n).0 t)) ∙ free)))
          by_test false t = h

  delete_each-Holds :
      (m : Daemon) (disks : List LocalDiskAppendInfo) (raws : List RawDevice)
      (last : Result (Unit {0})) (w : W)
      → All (AsListed w) raws
      → Holds w
      → Holds (delete_each api tests m disks raws last w).1
  unfolding delete_each
  delete_each-Holds m disks [] last w l h = h
  delete_each-Holds m disks (d ∷ raws) last w (f, l) h =
      by_test (is_published api tests m disks d) (d.status.name == "") refl
        (delete_each-Holds m disks raws last w l h)
        (λ free.
          delete_each-Holds m disks raws (last_error api tests (api.delete d.name w).0)
            (api.delete d.name w).1 (moved raws l) (delete-Holds d.name w free h))
    where
      moved :
          (rs : List RawDevice) → All (AsListed w) rs → All (AsListed (api.delete d.name w).1) rs
      moved [] k = tt
      moved (r ∷ rs) (p, k) = (λ e. delete-free d.name r.name w (p e), moved rs k)

      deleted : Result (Unit {0}) × W
      deleted =
          delete_each api tests m disks raws (last_error api tests (api.delete d.name w).0)
            (api.delete d.name w).1

      by_test :
          (a b : Bool)
          → (d.status.name == "") ≡ b
          → Holds (delete_each api tests m disks raws last w).1
          → (holder d.name (devices w) ≡ "" → Holds deleted.1)
          → Holds (if not a && b then deleted else delete_each api tests m disks raws last w).1
      by_test true b e k g = k
      by_test false false e k g = k
      by_test false true e k g = g (f ((eq_iff d.status.name "").0 e))

  -- Whatever a publishing of the disks of a node ends with, a device that a volume holds is still there
  -- and held by the same volume, if the API server does as documented, with unique names, and the
  -- lister is in step with it.
  pub publish-Holds :
      (m : Daemon) (disks : List LocalDiskAppendInfo) (w : W)
      → Holds w
      → Holds (publish api tests m disks w).1
  unfolding publish check_raw_device_deleted
  publish-Holds m disks w h = by_list (api.list (label_is "node" m.node_name) published) refl
    where
      published : W
      published = publish_each api tests m disks w

      still : Holds published
      still = publish_each-Holds m disks w h

      as_listed :
          (rs : List RawDevice)
          → All (λ (d : RawDevice). holder d.name (devices published) ≡ d.status.name) rs
          → All (AsListed published) rs
      as_listed [] k = tt
      as_listed (r ∷ rs) (p, k) = (λ e. p ∙ e, as_listed rs k)

      by_list :
          (r : Result (List RawDevice))
          → api.list (label_is "node" m.node_name) published ≡ r
          → Holds (delete_listed api tests m disks r published).1
      by_list (err e) q = still
      by_list (ok raws) q =
          delete_each-Holds m disks raws (ok tt) published
            (rw (store.listed (label_is "node" m.node_name) published raws q) (
              as_listed (select (matches (label_is "node" m.node_name)) (devices published)) (
                select-holder (matches (label_is "node" m.node_name)) (devices published)
                  (store.unique published))))
            still
