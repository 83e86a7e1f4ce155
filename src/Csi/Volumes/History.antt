-- ===== src/Csi/Volumes/History.antt =====
-- Volumes over time: what createVolume and deleteVolume keep, and how deletion undoes creation.
use nativestor.Prelude.{
  ℕ, ◌≤◌, String, ◌≡◌, refl, sym, ap, ◌≢◌, ◌∙◌, ◌⊎◌, inl, inr, [], none, some, get_elem?, All,
  All-get_elem?, All-of_get_elem?,
}
use nativestor.Prelude.Int.{ℤ, pos}
use nativestor.Errors.{Result, ok, >>=-eq-ok, ◌>>=◌, grpc, not_found, internal}
use nativestor.Csi.Device.{
  RawDevice, RawDeviceStatus, RawDeviceApi, label_is, IsApiServer, IsCurrent, everything, matches,
  set_status,
}
use nativestor.Csi.Placement.{match_devices, no_match}
use nativestor.Csi.Volumes.{at_index, create_volume, delete_volume, index_of_volume}
use nativestor.Csi.Volumes.Effects.{
  Created, create_volume-ok, and_update-Outcome, Outcome, at_index-eq-ok, get_elem?-select,
}
use nativestor.Csi.Volumes.RoundTrip.{
  HasOwnName, set_status-HasOwnName, set_status-keeps, set_status-twice, set_status-held,
  index_of_volume-FoundAt, FoundAt-device,
}

status_of_name : (s : RawDeviceStatus) {n : String} → s.name ≡ n → s ≡ record { name = n }
status_of_name s p = λ i. record { name = p i }

module _ {W : Type 0} (api : RawDeviceApi W) (server : IsApiServer api) where
  open server use {devices}

  abbrev pub IsOwned : W → Type 0
  IsOwned w = All HasOwnName (devices w)

  Outcome-IsOwned :
      (status answer : RawDevice → String) (m : Result RawDevice) (w : W)
      (after : Result String × W)
      → ((d : RawDevice) → (status d ≡ "") ⊎ (status d ≡ d.name))
      → IsOwned w
      → Outcome api server status answer m w after
      → IsOwned after.1
  Outcome-IsOwned status answer m w after c own (inl (e, failed, same)) = rw same own
  Outcome-IsOwned status answer m w after c own (inr (d, taken, answered, written)) =
      rw written (set_status-HasOwnName d.name _ (devices w) (c d) own)

  -- createVolume, whatever it answers, keeps every device unassigned or held by its own volume.
  pub create_volume-IsOwned :
      (node : String) (request_gb : ℤ) (w : W)
      → IsOwned w
      → IsOwned (create_volume api node request_gb w).1
  unfolding create_volume
  create_volume-IsOwned node request_gb w own =
      Outcome-IsOwned (λ dev. dev.name) (λ dev. dev.name) _ w _ (λ d. inr refl) own
        (and_update-Outcome api server (λ dev. dev.name) (λ dev. dev.name) _ w)

  pub delete_volume-IsOwned : (id : String) (w : W) → IsOwned w → IsOwned (delete_volume api id w).1
  unfolding delete_volume
  delete_volume-IsOwned id w own =
      Outcome-IsOwned (λ dev. "") (λ dev. "") _ w _ (λ d. inl refl) own
        (and_update-Outcome api server (λ dev. "") (λ dev. "") _ w)

  -- The calls that a CSI client makes, in any order and with any arguments.
  pub data Step (w : W) : W → Type 0 where
    created : (node : String) (request_gb : ℤ) → Step w (create_volume api node request_gb w).1
    deleted : (id : String) → Step w (delete_volume api id w).1

  pub data Reach (w : W) : W → Type 0 where
    here : Reach w w
    next : {v u : W} → Reach w v → Step v u → Reach w u

  Step-IsOwned : {w v : W} → Step w v → IsOwned w → IsOwned v
  Step-IsOwned {w} (created node request_gb) own = create_volume-IsOwned node request_gb w own
  Step-IsOwned {w} (deleted id) own = delete_volume-IsOwned id w own

  -- After any calls, each device is unassigned or held by the volume of its own name.
  pub Reach-IsOwned : {w v : W} → Reach w v → IsOwned w → IsOwned v
  Reach-IsOwned here own = own
  Reach-IsOwned (next r s) own = Step-IsOwned s (Reach-IsOwned r own)

  -- Two objects of one name are one object, as the API server guarantees.
  abbrev pub HasUniqueNames : W → Type 0
  HasUniqueNames w =
      (i j : ℕ) (d e : RawDevice)
      → get_elem? (devices w) i ≡ some d
      → get_elem? (devices w) j ≡ some e
      → d.name ≡ e.name
      → d ≡ e

  -- createVolume, whatever it answers to a request of at least one GiB, leaves a device that a volume
  -- holds as it is, if names are unique and the lister has caught up with the API server.
  pub create_volume-keeps :
      (node : String) (k : ℕ) (w : W) (i : ℕ) (d : RawDevice)
      → 1 ≤ k
      → IsCurrent api server w
      → HasUniqueNames w
      → get_elem? (devices w) i ≡ some d
      → d.status.name ≢ ""
      → get_elem? (devices (create_volume api node (pos k) w).1) i ≡ some d
  unfolding create_volume
  create_volume-keeps node k w i d k_pos current unique at held =
      by_outcome (and_update-Outcome api server (λ dev. dev.name) (λ dev. dev.name) _ w)
    where
      chosen : Result RawDevice
      chosen = do
        devs ← api.list (label_is "node" node) w
        at_index (grpc internal "not found match device") devs
            (match_devices (pos k) 0 devs no_match).index

      after : Result String × W
      after = create_volume api node (pos k) w

      by_outcome :
          Outcome api server (λ dev. dev.name) (λ dev. dev.name) chosen w after
          → get_elem? (devices after.1) i ≡ some d
      by_outcome (inl (e, failed, same)) = rw same at
      by_outcome (inr (c, taken, answered, written)) =
          let (made, status) = create_volume-ok api server node k w current k_pos answered in
          let is_free = made.suits.unassigned in
          rw written (
            set_status-keeps c.name _ (devices w) i at (λ same.
              (let one : d ≡ made.device =
                  unique i made.position d made.device at made.stored
                    (same ∙ sym made.id_is_name) in
                absurd (held (ap (λ (x : RawDevice). x.status.name) one ∙ is_free)))))

  Outcome-undoes :
      (m : Result RawDevice) (w v : W) (after : Result String × W) (id : String) (d : RawDevice)
      → Outcome api server (λ dev. "") (λ dev. "") m v after
      → ((c : RawDevice) → m ≡ ok c → c.name ≡ id)
      → devices v ≡ set_status id (record { name = id }) (devices w)
      → All (λ e. e.name ≡ id → e.status ≡ record { name = "" }) (devices w)
      → after.0 ≡ ok ""
      → devices after.1 ≡ devices w
  Outcome-undoes m w v after id d (inl (e, failed, same)) named made free done = cc (failed, done)
  Outcome-undoes m w v after id d (inr (c, taken, answered, written)) named made free done =
      rw (written, named c taken, made)
        (set_status-twice id (record { name = id }) (record { name = "" }) (devices w) free)

  -- The device that deleteVolume chooses carries the volume's name.
  chosen_for_delete :
      (id : String) (w : W) (c : RawDevice)
      → IsCurrent api server w
      → id ≢ ""
      → IsOwned w
      → (do
        devs ← api.list everything w
        at_index (grpc not_found "") devs (index_of_volume id 0 devs none))
        ≡ ok c
      → c.name ≡ id
  chosen_for_delete id w c current ne own h =
      let (devs, listing, indexed) = >>=-eq-ok (api.list everything w) _ h in
      let at = at_index-eq-ok _ devs _ indexed in
      let held : c.status.name ≡ id =
        FoundAt-device id devs _ c (index_of_volume-FoundAt id [] devs none tt) at in
      let stored =
        get_elem?-select (matches everything) (devices w) at.0
          (ap (λ l. get_elem? l at.0) (sym (current everything devs listing)) ∙ at.2) in
      by_own (All-get_elem? HasOwnName (devices w) stored.0 own stored.1) held
    where
      by_own : HasOwnName c → c.status.name ≡ id → c.name ≡ id
      by_own (inl free) held = absurd (ne (cc (free, held)))
      by_own (inr same) held = cc (same, held)

  -- Deleting the volume, of at least one GiB and with a name, that createVolume has just made leaves
  -- the objects as they were, if it succeeds: where names are unique, each device is unassigned or
  -- held by the volume of its own name, and the lister has caught up with the API server at each of
  -- the two calls.
  pub delete_volume-create_volume :
      (node : String) (k : ℕ) (w : W) (id : String)
      → IsCurrent api server w
      → IsCurrent api server (create_volume api node (pos k) w).1
      → 1 ≤ k
      → id ≢ ""
      → IsOwned w
      → HasUniqueNames w
      → (create_volume api node (pos k) w).0 ≡ ok id
      → (delete_volume api id (create_volume api node (pos k) w).1).0 ≡ ok ""
      → devices (delete_volume api id (create_volume api node (pos k) w).1).1 ≡ devices w
  unfolding delete_volume
  delete_volume-create_volume node k w id current current' k_pos ne own unique made done =
      let v = (create_volume api node (pos k) w).1 in
      let (c, written) = create_volume-ok api server node k w current k_pos made in
      Outcome-undoes _ w v _ id c.device (and_update-Outcome api server (λ dev. "") (λ dev. "") _ v)
        (λ d. chosen_for_delete id v d current' ne (create_volume-IsOwned node (pos k) w own))
        written (All-of_get_elem? _ (devices w) (λ j e at same. vacant c j e at same)) done
    where
      vacant :
          (c : Created api server node k w id) (j : ℕ) (e : RawDevice)
          → get_elem? (devices w) j ≡ some e
          → e.name ≡ id
          → e.status ≡ record { name = "" }
      vacant c j e at same =
          let one : e ≡ c.device =
            unique j c.position e c.device at c.stored (same ∙ sym c.id_is_name) in
          status_of_name e.status (ap (λ (d : RawDevice). d.status.name) one ∙ c.suits.unassigned)

  -- Two volumes of at least one GiB that are made one after the other stand on different devices, if
  -- the first has a name and the lister has caught up with the API server at each of the two calls.
  pub create_volume-distinct :
      (node node' : String) (k k' : ℕ) (w : W) (id id' : String)
      → IsCurrent api server w
      → IsCurrent api server (create_volume api node (pos k) w).1
      → 1 ≤ k
      → 1 ≤ k'
      → id ≢ ""
      → (create_volume api node (pos k) w).0 ≡ ok id
      → (create_volume api node' (pos k') (create_volume api node (pos k) w).1).0 ≡ ok id'
      → id ≢ id'
  create_volume-distinct node node' k k' w id id' current current' k_pos k_pos' ne made made' same =
      let v = (create_volume api node (pos k) w).1 in
      let (c, written) = create_volume-ok api server node k w current k_pos made in
      let (c', written') = create_volume-ok api server node' k' v current' k_pos' made' in
      let all_held = rw (← written) at (set_status-held id (devices w)) in
      let held =
        All-get_elem? _ (devices v) c'.position all_held c'.stored (c'.id_is_name ∙ sym same) in
      ne (sym held ∙ c'.suits.unassigned)
