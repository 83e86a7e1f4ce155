-- ===== src/Discover/Classes/Accurate.antt =====
-- What checkDeviceClass makes of the classes that a node's status records.
use nativestor.Prelude.{
  String, ◌==◌, ◌&&◌, ◌≡◌, refl, Bool, true, false, all, map, List, [], ◌∷◌, ◌↔◌, ◌⊎◌, inl, inr,
  All, Option, none, some, if◌then◌else◌,
}
use nativestor.Prelude.Maps.{Map, has, get_or}
use nativestor.Errors.{Result, ok, err}
use nativestor.Exec.{Exec, Call, Executor, done, pure, ◌>>=◌}
use nativestor.Exec.Steps.{>>=-eq-done}
use nativestor.Sys.Device.{Library, of_result}
use nativestor.Sys.Lvm.{get_physical_volume}
use nativestor.VolumeGroup.Types.{
  ClassState, DeviceState, NodeStorageState, class_ready, class_un_ready, device_offline,
}
use nativestor.VolumeGroup.Lvmd.{ConfigMap, Codec, put, vg_status_config_map_key}
use nativestor.Discover.Classes.{judge_device, judge_class, judge_each, check_device_class}

module _ (pvs : Map String) where
  -- A device that is a physical volume is left as it is recorded, another one is offline.
  abbrev pub IsDeviceJudged : DeviceState → DeviceState → Type 0
  IsDeviceJudged d d' =
      (d'.name ≡ d.name)
      × (has d.name pvs ≡ true → d' ≡ d)
      × (has d.name pvs ≡ false → d'.state ≡ device_offline)

  abbrev pub AreDevicesJudged : List DeviceState → List DeviceState → Type 0
  AreDevicesJudged [] [] = Unit
  AreDevicesJudged (d ∷ ds) (d' ∷ ds') = IsDeviceJudged d d' × AreDevicesJudged ds ds'
  AreDevicesJudged _ _ = ⊥

  map-AreDevicesJudged : (ds : List DeviceState) → AreDevicesJudged ds (map (judge_device pvs) ds)
  map-AreDevicesJudged [] = tt
  map-AreDevicesJudged (d ∷ ds) = (by_test (has d.name pvs), map-AreDevicesJudged ds)
    where
      by_test :
          (b : Bool)
          → let d' = if b then d else record d { state = device_offline } in
            (d'.name ≡ d.name) × (b ≡ true → d' ≡ d) × (b ≡ false → d'.state ≡ device_offline)
      by_test true = (refl, λ e. refl, λ e. cc)
      by_test false = (refl, λ e. cc, λ e. refl)

  all-All :
      (ds : List DeviceState)
      → (all (λ (d : DeviceState). has d.name pvs) ds ≡ true) ↔ All (λ d. has d.name pvs ≡ true) ds
  all-All [] = (λ e. tt, λ h. refl)
  all-All (d ∷ ds) = by_test (has d.name pvs) (all-All ds)
    where
      by_test :
          (b : Bool)
          → (all (λ (e : DeviceState). has e.name pvs) ds ≡ true)
            ↔ All (λ e. has e.name pvs ≡ true) ds
          → ((b && all (λ (e : DeviceState). has e.name pvs) ds) ≡ true)
            ↔ ((b ≡ true) × All (λ e. has e.name pvs ≡ true) ds)
      by_test true (f, g) = (λ h. (refl, f h), λ (e, h). g h)
      by_test false (f, g) = (λ h. cc, λ (e, h). cc)

  -- The class is ready exactly if each of its devices is a physical volume, and else not ready.
  abbrev pub IsClassJudged : ClassState → ClassState → Type 0
  IsClassJudged ele ele' =
      (ele'.name ≡ ele.name)
      × (ele'.vg_name ≡ ele.vg_name)
      × (ele'.message ≡ ele.message)
      × ((ele'.state ≡ class_ready) ↔ All (λ d. has d.name pvs ≡ true) ele.device_states)
      × ((ele'.state ≡ class_ready) ⊎ (ele'.state ≡ class_un_ready))
      × AreDevicesJudged ele.device_states ele'.device_states

  judge_class-IsClassJudged : (ele : ClassState) → IsClassJudged ele (judge_class pvs ele)
  unfolding judge_class
  judge_class-IsClassJudged ele = (
    refl,
    refl,
    refl,
    by_test (all (λ (d : DeviceState). has d.name pvs) ele.device_states)
        (all-All ele.device_states),
    or_not (all (λ (d : DeviceState). has d.name pvs) ele.device_states),
    map-AreDevicesJudged ele.device_states,
  )
    where
      by_test :
          {P : Type 0} (b : Bool)
          → (b ≡ true) ↔ P
          → ((if b then class_ready else class_un_ready) ≡ class_ready) ↔ P
      by_test true (f, g) = (λ h. f refl, λ p. refl)
      by_test false (f, g) = (λ h. cc, λ p. cc (g p))

      or_not :
          (b : Bool)
          → ((if b then class_ready else class_un_ready) ≡ class_ready)
            ⊎ ((if b then class_ready else class_un_ready) ≡ class_un_ready)
      or_not true = inl refl
      or_not false = inr refl

of_result-eq-done {ℓ} :
    {A : Type ℓ} (r : Result A) (calls : List Call) {a : A}
    → (of_result r calls).0 ≡ done a
    → (r ≡ ok a) × ((of_result r calls).1 ≡ calls)
of_result-eq-done (ok b) calls h = (cc, refl)
of_result-eq-done (err e) calls h = (cc, refl)

module _ (library : Library) (executor : Executor) where
  -- Each class is judged by the physical volumes that its group is listed with when its turn comes.
  abbrev pub AreAccurate : List Call → List ClassState → List ClassState → Type 0
  AreAccurate calls [] [] = Unit
  AreAccurate calls (ele ∷ classes) (ele' ∷ classes') =
      ((pvs : Map String) × ((get_physical_volume executor ele.vg_name calls).0 ≡ done pvs)
        × IsClassJudged pvs ele ele')
      × AreAccurate (get_physical_volume executor ele.vg_name calls).1 classes classes'
  AreAccurate _ _ _ = ⊥

  judge_each-AreAccurate :
      (classes : List ClassState) (calls : List Call) (judged : List ClassState)
      → (judge_each library executor classes calls).0 ≡ done judged
      → AreAccurate calls classes judged
  unfolding judge_each
  judge_each-AreAccurate [] calls judged h = let none_left : judged ≡ [] = cc h in rw none_left tt
  judge_each-AreAccurate (ele ∷ classes) calls judged h =
      let (pvs, listed, rest, eq) =
        >>=-eq-done (get_physical_volume executor ele.vg_name)
          (λ pvs.
            judge_each library executor classes >>= λ others. pure (judge_class pvs ele ∷ others))
          calls h in
      let (others, each, last, eq') =
        >>=-eq-done (judge_each library executor classes)
          (λ others. pure (judge_class pvs ele ∷ others))
          (get_physical_volume executor ele.vg_name calls).1 rest in
      let is_judged : judged ≡ judge_class pvs ele ∷ others = cc last in
      rw is_judged (
        (pvs, listed, judge_class-IsClassJudged pvs ele),
        judge_each-AreAccurate classes _ others each,
      )

  -- A patch that checkDeviceClass sends leads from the config map that it read to one in which only the
  -- node's status is another, and in that only the classes that were successful. Each of these is judged
  -- by the physical volumes that its group was listed with: it is ready exactly if each of its devices
  -- is one of them, and else not ready; a device that is one of them is left as it was recorded, also
  -- if that is offline, and any other is offline.
  pub check_device_class-AreAccurate :
      (codec : Codec) (cm old new : ConfigMap) (calls : List Call)
      → (check_device_class library executor codec (ok cm) calls).0 ≡ done (some (old, new))
      → (old ≡ cm)
        × ((state : NodeStorageState) × (classes : List ClassState) × (value : String)
            × (codec.unmarshal_status (get_or "" vg_status_config_map_key cm.contents) ≡ ok state)
            × AreAccurate calls state.success_classes classes
            × (codec.marshal_status (record state { success_classes = classes }) ≡ ok value)
            × (new ≡ put vg_status_config_map_key value cm))
  unfolding check_device_class
  check_device_class-AreAccurate codec cm old new calls = by_test (status == "")
    where
      status : String
      status = get_or "" vg_status_config_map_key cm.contents

      Goal : Type 0
      Goal =
          (old ≡ cm)
          × ((state : NodeStorageState) × (classes : List ClassState) × (value : String)
              × (codec.unmarshal_status status ≡ ok state)
              × AreAccurate calls state.success_classes classes
              × (codec.marshal_status (record state { success_classes = classes }) ≡ ok value)
              × (new ≡ put vg_status_config_map_key value cm))

      judged_from : Exec (Option (ConfigMap × ConfigMap))
      judged_from = do
        state ← of_result (codec.unmarshal_status status)
        classes ← judge_each library executor state.success_classes
        value ← of_result (codec.marshal_status (record state { success_classes = classes }))
        pure (some (cm, put vg_status_config_map_key value cm))

      by_test :
          (b : Bool)
          → ((if b then pure none else judged_from) calls).0 ≡ done (some (old, new))
          → Goal
      by_test true h = cc
      by_test false h =
          let (state, unmarshalled, rest, eq) =
            >>=-eq-done (of_result (codec.unmarshal_status status)) _ calls h in
          let (is_state, at_state) = of_result-eq-done _ calls unmarshalled in
          let (classes, judged, rest', eq') =
            >>=-eq-done (judge_each library executor state.success_classes) _ _ rest in
          let (value, marshalled, last, eq'') =
            >>=-eq-done
              (of_result (codec.marshal_status (record state { success_classes = classes }))) _ _
              rest' in
          let accurate : AreAccurate calls state.success_classes classes =
            rw (← at_state) (judge_each-AreAccurate state.success_classes _ classes judged) in
          let is_value = of_result-eq-done _ _ marshalled in
          (cc last, (state, classes, value, is_state, accurate, is_value.0, cc last))
