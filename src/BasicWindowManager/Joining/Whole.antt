-- ===== src/BasicWindowManager/Joining/Whole.antt =====
-- The whole of `add_surface` in miral/basic_window_manager.cpp.
use miral.Prelude.{
  ℕ, suc, ◌<◌, ◌≡◌, ◌∙◌, refl, sym, ap, subst, inl, inr, Bool, false, ◌&&◌, Option, none, some,
  List, [], ◌∷◌, ◌==◌, if◌then◌else◌, Bool-cases, arith, All,
}
use miral.Types.{fullscreen, state_eq}
use miral.MruWindowList.{Window}
use miral.WindowSpecification.{WindowSpecification}
use miral.WindowSpecification.Conversion.{CreationParameters, of_creation_parameters, update}
use miral.WindowInfo.{WindowInfo, Defaults, create}
use miral.ApplicationInfo.{ApplicationInfo, add_window}
use miral.BasicWindowManager.Surfaces.{SurfaceApi}
use miral.BasicWindowManager.State.{
  Manager, Call, advise_new_window, ok, find_info, info_for, handle, alive, tell, application_for,
  set_application,
}
use miral.BasicWindowManager.Forest.{Known, info_for-key}
use miral.BasicWindowManager.Family.{IsFamily}
use miral.BasicWindowManager.Kin.{SameKin, kin-IsFamily, relisted-SameKin}
use miral.BasicWindowManager.Insertion.{place_new_surface, requested_parent, is_set}
use miral.BasicWindowManager.Transition.{listed_fullscreen}
use miral.BasicWindowManager.Joining.{
  Host, Built, emplaced, parent_for, workspaces_of_parent, report_place, join, add_surface,
}
use miral.BasicWindowManager.Joining.Edits.{IsNew}
use miral.BasicWindowManager.Joining.Joined.{join_parent-Joined, emplace-new, find_info-append}
use miral.BasicWindowManager.Joining.Linked.{
  Relinked-SameKin, Relinked-info_for, join_workspaces-Relinked,
}
use miral.BasicWindowManager.Joining.Family.{joined-IsFamily}

-- A record that has just been made.
create-Fresh :
    (defaults : Defaults) (w : Window) (spec : WindowSpecification) {info : WindowInfo}
    → create defaults w spec ≡ some info
    → (info.window ≡ w) × (info.children ≡ [])
unfolding create
create-Fresh defaults w spec e = ground (arith, e)

module _ {Surface : Type 0} (api : SurfaceApi Surface) where
  parent_for-handle :
      (m : Manager Surface) (o : Option Window)
      → ((p : Window) → o ≡ some p → Known m p)
      → parent_for m o ≡ ok o
  unfolding parent_for
  parent_for-handle m none known = refl
  parent_for-handle m (some p) known =
      let (info, is) = known p refl in rw is (ap (λ x. ok (some x)) (info_for-key m p is))

  -- The last steps change calls and the list of the fullscreen windows.
  report_place-SameKin :
      (m : Manager Surface) (parent : Option Window) (w : Window) (spec : WindowSpecification)
      (full : List Window) (calls : List Call)
      → All (Known m) m.mru_active_windows
      → let n =
          report_place api (record m { fullscreen_surfaces = full; calls = calls }) parent w spec in
        SameKin m n × (info_for n w ≡ info_for m w)
  unfolding info_for
  report_place-SameKin m none w spec full calls active =
      (relisted-SameKin m m.mru_active_windows full calls active, refl)
  report_place-SameKin m (some p) w spec full calls active =
      elim (Bool-cases (is_set spec.aux_rect && is_set spec.placement_hints)) [
        | inl placed ↦ rw placed (relisted-SameKin m m.mru_active_windows full _ active, refl)
        | inr apart ↦ rw apart (relisted-SameKin m m.mru_active_windows full calls active, refl)
      ]

  handle-handle : (m : Manager Surface) (o : Option Window) → handle m (handle m o) ≡ handle m o
  handle-handle m none = refl
  handle-handle m (some w) = elim (Bool-cases (alive m w)) [
    | inl there ↦ rw there (rw there refl)
    | inr gone ↦ rw gone refl
  ]

  -- With the record of the window made, and its parent known.
  join-IsFamily :
      (lives : ℕ → Bool) (m : Manager Surface) (depth : Window → ℕ) (limit session : ℕ)
      (built : Built Surface) (session_info : ApplicationInfo) (info new : WindowInfo)
      (spec : WindowSpecification)
      → IsFamily m depth limit
      → info.window ≡ built.window
      → new.window ≡ info.window
      → new.children ≡ []
      → IsNew m new.window
      → handle (emplaced m session built info) new.parent ≡ new.parent
      → ((p : Window)
          → new.parent ≡ some p
          → (p == new.window ≡ false) × Known m p × (depth p < depth new.window))
      → (n : Manager Surface) × (join api lives
            (suc limit)
            (emplaced m session built info)
            session_info
            new
            spec
          ≡ ok n)
        × IsFamily n depth limit
        × (info_for n new.window ≡ ok new)
  unfolding join alive emplaced
  join-IsFamily lives m depth limit session built session_info info new spec family own same
        no_children is_new at_parent above =
      let w = new.window in
      let apps = set_application (add_window session_info w) m.app_info in
      let (joined, e, is_joined) =
        join_parent-Joined m session built info new apps own same
          (ap (λ x. find_info x m.window_info) (sym same) ∙ is_new.unknown) new.parent at_parent
          no_children (λ p is. let (apart, known, _) = above p is in (apart, known)) in
      let joined_family =
        joined-IsFamily m joined depth limit family new new.parent is_new is_joined above in
      let (linked, e', relinked) =
        join_workspaces-Relinked joined depth limit w (workspaces_of_parent lives joined new.parent)
          joined_family.forest (new, is_joined.own) in
      let kin = Relinked-SameKin joined linked joined_family.forest.active relinked in
      let linked_family = kin-IsFamily joined linked depth limit kin joined_family in
      let full =
        if state_eq new.state fullscreen
        then listed_fullscreen fullscreen w linked.fullscreen_surfaces
        else linked.fullscreen_surfaces in
      let told = tell linked (advise_new_window w ∷ []) in
      let (kin', same_info) =
        report_place-SameKin linked new.parent w spec full told.calls linked_family.forest.active in
      let n = report_place api (record told { fullscreen_surfaces = full }) new.parent w spec in
      (
        n,
        rw (at_parent, e, e') refl,
        kin-IsFamily linked n depth limit kin' linked_family,
        same_info ∙ Relinked-info_for joined linked w relinked ∙ is_joined.own,
      )

  emplaced-Known :
      (m : Manager Surface) (session : ℕ) (built : Built Surface) (info : WindowInfo) (p : Window)
      → find_info info.window m.window_info ≡ none
      → p == info.window ≡ false
      → Known m p
      → Known (emplaced m session built info) p
  unfolding emplaced info_for
  emplaced-Known m session built info p unknown apart (i, is) = (
    i,
    rw
        (
          emplace-new m.window_info info unknown,
          find_info-append p m.window_info info unknown,
          apart,
        )
        is,
  )

  -- What the policy makes of the specification, and what Mir builds from it.
  abbrev pub spec_for : Host Surface → ApplicationInfo → WindowSpecification → WindowSpecification
  spec_for host session_info placed = host.place_new_window session_info placed

  abbrev pub built_for : Host Surface → WindowSpecification → Built Surface
  built_for host spec = host.build (update spec host.blank)

  -- Parents and children name each other, without repetition, in a forest of a bounded depth; the application has a
  -- record, the window is placed, and the policy leaves the name, the position and the size set. The window that Mir
  -- builds is new: no record is about it or has it as its parent. Its parent, if it names one that is alive, is
  -- another window with a record, and less deep. Then `add_surface` returns that window; its record is the one that the
  -- specification gives it, with that parent; and parents and children still name each other, in a forest of that
  -- depth.
  pub add_surface-IsFamily :
      (host : Host Surface) (lives : ℕ → Bool) (m : Manager Surface) (depth : Window → ℕ)
      (limit session : ℕ) (params : CreationParameters) {session_info : ApplicationInfo}
      {placed : WindowSpecification} {info : WindowInfo}
      → IsFamily m depth limit
      → application_for m session ≡ ok session_info
      → place_new_surface api host.geometry host.layout host.active_display m session_info
          (of_creation_parameters params)
        ≡ ok placed
      → let spec = spec_for host session_info placed in
        let built = built_for host spec in
        create host.defaults built.window spec ≡ some info
        → IsNew m built.window
        → ((p : Window)
            → handle (emplaced m session built info) (requested_parent spec) ≡ some p
            → (p == built.window ≡ false) × Known m p × (depth p < depth built.window))
        → (n : Manager Surface) × (add_surface api host lives (suc limit) m session params
            ≡ ok (built.window, n))
          × IsFamily n depth limit
          × (info_for n built.window
              ≡ ok (record info {
                parent = handle (emplaced m session built info) (requested_parent spec);
              }))
  unfolding add_surface
  add_surface-IsFamily host lives m depth limit session params {session_info} {placed} {info} family
        has_session is_placed made new above =
      let spec = spec_for host session_info placed in
      let built = built_for host spec in
      let known = emplaced m session built info in
      let parent = handle known (requested_parent spec) in
      let (own, no_children) = create-Fresh host.defaults built.window spec {info = info} made in
      let above_own : (p : Window)
          → parent ≡ some p
          → (p == info.window ≡ false) × Known m p × (depth p < depth info.window) =
        λ p e.
          subst (λ x. (p == x ≡ false) × Known m p × (depth p < depth x)) (sym own) (above p e) in
      let is_new = subst (IsNew m) (sym own) new in
      let (n, e, family', is) =
        join-IsFamily lives m depth limit session built session_info info
          (record info { parent = parent }) spec family own refl no_children is_new
          (handle-handle known (requested_parent spec)) above_own in
      let has_parent = parent_for-handle known parent (λ p at.
        let (apart, there, _) = above_own p at in
        emplaced-Known m session built info p is_new.unknown apart there) in
      (
        n,
        rw (has_session, is_placed, made, has_parent, e) refl,
        family',
        subst (λ x. info_for n x ≡ ok (record info { parent = parent })) own is,
      )
