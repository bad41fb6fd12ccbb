-- ===== src/Api/Served.antt =====
-- firmware/main/net/web_server.cpp with repositories/programs.cpp and executor.cpp: ProgramState holds a pointer
-- into the repository. What it leads to is, over any history, the program that the repository serves.
use rotation_target.Common.{
  ◌≡◌, ap, sym, ◌∙◌, false, Option, none, some, arith, Bool-cases, Option-cases, inl, inr,
}
use rotation_target.Common.Int.{ℤ, eqb_ℤ, eqb→eq}
use rotation_target.Json.{JsonLib}
use rotation_target.Disk.{Disk}
use rotation_target.Program.{Program}
use rotation_target.RunState.{ProgramState}
use rotation_target.Executor.{force_unload, clear_program}
use rotation_target.Device.{Call, step, unload_if_loaded}
use rotation_target.Device.Held.{takes, held}
use rotation_target.Library.{Programs, find, put, erase, has}
use rotation_target.Library.Maps.{find-put, find-erase}
use rotation_target.Library.Shipped.{put-other, free-apart}
use rotation_target.Api.{Request, Moment, Server, Reply, called, guarded, require_control_lock}
use rotation_target.Api.ProgramRoutes.{is_loaded_id}

-- Each program is under its identifier.
abbrev pub Keyed : Programs → Type 0
Keyed m = (k : ℤ) (p : Program) → find m k ≡ some p → p.id ≡ k

-- The loaded program is the one under its identifier.
abbrev pub Serves : Programs → Option Program → Type 0
Serves m loaded = (p : Program) → loaded ≡ some p → find m p.id ≡ some p

pub put-Keyed :
    (m : Programs) (id : ℤ) (p : Program) → Keyed m → Keyed (put m id (record p { id = id }))
put-Keyed m id p keyed k q found = elim (Bool-cases (eqb_ℤ id k)) [
  | inl e ↦
      let there : some (record p { id = id }) ≡ some q =
        rw e at (sym (find-put m id k (record p { id = id })) ∙ found) in
      let same : record p { id = id } ≡ q = cc there in sym (ap (λ x. x.id) same) ∙ eqb→eq id k e
  | inr e ↦ keyed k q (rw e at (sym (find-put m id k (record p { id = id })) ∙ found))
]

pub erase-Keyed : (m : Programs) (id : ℤ) → Keyed m → Keyed (erase m id)
erase-Keyed m id keyed k q found = elim (Bool-cases (eqb_ℤ id k)) [
  | inl e ↦
      let gone : none ≡ some q = rw e at (sym (find-erase m id k) ∙ found) in ground (arith, gone)
  | inr e ↦ keyed k q (rw e at (sym (find-erase m id k) ∙ found))
]

eqb_sym : (a b : ℤ) → eqb_ℤ a b ≡ false → eqb_ℤ b a ≡ false
eqb_sym a b h = ground arith

pub found-Serves : (m : Programs) (id : ℤ) → Keyed m → Serves m (find m id)
found-Serves m id keyed p found = ap (find m) (keyed id p found) ∙ found

pub none-Serves : (m : Programs) → Serves m none
none-Serves m p gone = ground (arith, gone)

pub add-Serves :
    (m : Programs) (loaded : Option Program) (id : ℤ) (p : Program)
    → has m id ≡ false
    → Serves m loaded
    → Serves (put m id p) loaded
add-Serves m loaded id p free serves q there =
    put-other m id q.id p q (serves q there) (free-apart m id q.id q free (serves q there))

-- Another program than the loaded one is changed.
abbrev pub Apart : ℤ → Option Program → Type 0
Apart id loaded = (p : Program) → loaded ≡ some p → eqb_ℤ p.id id ≡ false

pub put-Serves :
    (m : Programs) (loaded : Option Program) (id : ℤ) (p : Program)
    → Apart id loaded
    → Serves m loaded
    → Serves (put m id p) loaded
put-Serves m loaded id p apart serves q there =
    put-other m id q.id p q (serves q there) (eqb_sym q.id id (apart q there))

pub erase-Serves :
    (m : Programs) (loaded : Option Program) (id : ℤ)
    → Apart id loaded
    → Serves m loaded
    → Serves (erase m id) loaded
erase-Serves m loaded id apart serves q there =
    find-erase m id q.id ∙ rw (eqb_sym q.id id (apart q there)) (serves q there)

pub is_loaded_id-Apart :
    (s : ProgramState) (id : ℤ) → is_loaded_id s id ≡ false → Apart id s.program
unfolding is_loaded_id
is_loaded_id-Apart s id h p there = rw (there, is_loaded_id) at h

pub unload_if_loaded-Apart :
    (s : ProgramState) (id : ℤ) → Apart id (unload_if_loaded s id).0.program
unfolding unload_if_loaded force_unload clear_program
unload_if_loaded-Apart s id = elim (Option-cases s.program) [
  | inl e ↦ rw (e, unload_if_loaded) (λ p there. ground (arith, rw e at there))
  | inr (q, e) ↦ elim (Bool-cases (eqb_ℤ q.id id)) [
    | inl same ↦ rw (e, unload_if_loaded) (rw same (λ p there. ground (arith, there)))
    | inr other ↦
        rw (e, unload_if_loaded)
          (rw other (λ p there.
            let was : some q ≡ some p = sym e ∙ there in
            let equal : q ≡ p = cc was in ap (λ x. eqb_ℤ x.id id) (sym equal) ∙ other))
  ]
]

module _ (J : JsonLib) (D : Disk) where
  -- Each program is under its identifier, and the loaded one is among them.
  abbrev pub Well : Server J D → Type 0
  Well s = Keyed s.library.programs × Serves s.library.programs s.state.program

  pub called-Well :
      (s : Server J D) (m : Moment) (c : Call)
      → Serves s.library.programs (takes c)
      → Well s
      → Well (called J D s m c).0
  unfolding called step
  called-Well s m c new (keyed, serves) =
      (keyed, held (Serves s.library.programs) s.state m.run_ms c serves (none-Serves _) new)

  pub guarded-Well :
      (s : Server J D) (m : Moment) (req : Request) (reply : Reply J D)
      → Well s
      → Well reply.0
      → Well (guarded J D s m req reply).0
  unfolding guarded
  guarded-Well s m req reply v w = elim (Bool-cases (require_control_lock J D s m req)) [
    | inl e ↦ rw e w
    | inr e ↦ rw e v
  ]
