-- ===== src/Job/Runner/Protects.antt =====
-- What a job may write to while `add_volumes` calls it (calrissian/job.py): the inputs of a step are
-- bound read-only, and copies stand in for them where a step writes to its inputs.
use mathlib.Core.List.{Mem, mem-cons_self, mem-cons_of_mem}
use calrissian.Prelude.{
  ◌≡◌, refl, sym, subst, Bool, true, false, Bool-cases, Option-cases, inl, inr, Option, none, some,
  List, [], ◌∷◌, ◌++◌, if◌then◌else◌,
}
use calrissian.Text.{Text, codes, starts_with}
use calrissian.Job.Volumes.{VolumeBuilder, add_volume_binding}
use calrissian.Job.Pod.Build.{if_filled}
use calrissian.Job.Runner.{
  Job, JobState, FileOp, make_dirs, make_temp, copy, copy_tree, make_writable, write_lines,
  remove_tree, MapperEnt, VolumeCall, file_or_directory, writable_file, writable_directory,
  appended, refusal, Method, get, ◌>>=◌, ◌>>◌,
}
use calrissian.Job.Runner.Bindings.{
  Files, bind_volume, perform, mkdtemp, join_path, basename, add_file_or_directory_volume,
  copy_file, add_writable_file_volume, make_directory, copy_directory,
  add_writable_directory_volume, volume_call, add_volumes,
}
use calrissian.Job.Runner.Keeps.{
  Ends, Meets, in_turn, Keeps, pure-Keeps, raise-Keeps, get-Keeps, whenever-Keeps, either-Keeps,
  bind-Keeps,
}

-- The path that an operation writes to, or makes or takes away.
abbrev pub written : FileOp → Text
written (make_dirs path) = path
written (make_temp path) = path
written (copy source destination) = destination
written (copy_tree source destination) = destination
written (make_writable path) = path
written (write_lines path lines) = path
written (remove_tree path) = path

-- The place among the outputs that a call names.
abbrev pub host_target : VolumeCall → Option Text
host_target (file_or_directory v t) = if_filled t
host_target (writable_file v t) = if_filled t
host_target (writable_directory v t) = if_filled t
host_target (appended source target writable) = none
host_target refusal = none

otherwise :
    (P : JobState → Type 0) (b : Bool) (m n : Method (Unit {0}))
    → b ≡ false
    → Keeps P n
    → Keeps P (if b then m else n)
otherwise P true m n e h = cc
otherwise P false m n e h = h

module _ (fs : Files) (job : Job) (calls : List VolumeCall) where
  -- What a job may write to: directories that it makes in its tmpdir, a path in one of them, the
  -- places among the outputs, and files that cwltool made and had it bind writable.
  pub data MayWrite : Text → Type 0 where
    temp : (files : List FileOp) → MayWrite (fs.temp_name files job.tmpdir)
    scratch :
        (files : List FileOp) (path : Text)
        → MayWrite (join_path (fs.temp_name files job.tmpdir) (basename path))
    output :
        (path : Text) (c : VolumeCall) → Mem c calls → host_target c ≡ some path → MayWrite path
    literal : (source target : Text) → Mem (appended source target true) calls → MayWrite source

  -- From a state to another by operations and bindings that write to nothing else.
  pub data Protects (s : JobState) : JobState → Type 0 where
    start : Protects s s
    operates :
        (t : JobState) (op : FileOp)
        → MayWrite (written op)
        → Protects s t
        → Protects s (record t { files = t.files ++ op ∷ [] })
    binds :
        (t : JobState) (source target : Text) (writable : Bool) (b : VolumeBuilder)
        → (writable ≡ true → MayWrite source)
        → add_volume_binding source target writable t.volume_builder ≡ some b
        → Protects s t
        → Protects s (record t { volume_builder = b })

  module _ (s : JobState) where
    abbrev P : JobState → Type 0
    P = Protects s

    bind_volume-Protects :
        (source target : Text) (writable : Bool)
        → (writable ≡ true → MayWrite source)
        → Keeps P (bind_volume source target writable)
    unfolding bind_volume
    bind_volume-Protects source target writable may = record {
      runs = λ t p.
          elim (Option-cases (add_volume_binding source target writable t.volume_builder)) [
            | inl e ↦ rw (e, Ends) p
            | inr (b, e) ↦ rw (e, Ends) (binds t source target writable b may e p)
          ];
    }

    perform-Protects : (op : FileOp) → MayWrite (written op) → Keeps P (perform fs op)
    unfolding perform
    perform-Protects op may = record {
      runs = λ t p. elim (Bool-cases (fs.succeeds t.files op)) [
        | inl e ↦ rw (e, Ends) (operates t op may p)
        | inr e ↦ rw (e, Ends) p
      ];
    }

    -- A directory made by mkdtemp, and what is done with it.
    in_temp :
        (m : Text → Method (Unit {0}))
        → ((files : List FileOp) → Keeps P (m (fs.temp_name files job.tmpdir)))
        → Keeps P (mkdtemp fs job.tmpdir >>= m)
    unfolding mkdtemp
    in_temp m h =
        let made : Meets P (mkdtemp fs job.tmpdir)
            (λ path t. ((files : List FileOp) × (path ≡ fs.temp_name files job.tmpdir)) × P t) P =
          in_turn _ _ get_files (λ t.
            in_turn _ _ (perform-Protects _ (temp t.files))
              (λ _. record { runs = λ u p. ((t.files, refl), p) })) in
        in_turn _ m made (λ path. record {
          runs = λ t ((files, e), p).
              subst (λ path. Ends (λ _. P) P (m path t)) (sym e) ((h files).runs t p);
        })
      where
        get_files : Meets P get (λ _. P) P
        get_files = get-Keeps P

    module _ (shared : job.inplace_update ≡ false) where
      -- A copy in a new directory, bound in place of what was copied.
      copied :
          (v : MapperEnt) (op : Text → FileOp)
          → ((path : Text) → written (op path) ≡ path)
          → Keeps P (
              mkdtemp fs job.tmpdir >>= λ tmpdir. do
                perform fs (op (join_path tmpdir (basename v.resolved)))
                bind_volume (join_path tmpdir (basename v.resolved)) v.target true
                perform fs (make_writable (join_path tmpdir (basename v.resolved))))
      copied v op to = in_temp _ (λ files.
          let may = scratch files v.resolved in
          bind-Keeps P _ _ (perform-Protects _ (subst MayWrite (sym (to _)) may)) (λ _.
            bind-Keeps P _ _ (bind_volume-Protects _ v.target true (λ _. may))
              (λ _. perform-Protects _ may)))

      copy_file-Protects :
          (v : MapperEnt) (t : Option Text)
          → ((path : Text) → t ≡ some path → MayWrite path)
          → Keeps P (copy_file fs job v t)
      unfolding copy_file
      copy_file-Protects v (some t) may =
          bind-Keeps P _ _ (perform-Protects (copy v.resolved t) (may t refl))
            (λ _. perform-Protects (make_writable t) (may t refl))
      copy_file-Protects v none may = copied v (copy v.resolved) (λ path. refl)

      copy_directory-Protects :
          (v : MapperEnt) (t : Option Text)
          → ((path : Text) → t ≡ some path → MayWrite path)
          → Keeps P (copy_directory fs job v t)
      unfolding copy_directory
      copy_directory-Protects v (some t) may =
          bind-Keeps P _ _ (perform-Protects (copy_tree v.resolved t) (may t refl))
            (λ _. perform-Protects (make_writable t) (may t refl))
      copy_directory-Protects v none may = copied v (copy_tree v.resolved) (λ path. refl)

      make_directory-Protects :
          (v : MapperEnt) (t : Option Text)
          → ((path : Text) → t ≡ some path → MayWrite path)
          → Keeps P (make_directory fs job v t)
      unfolding make_directory
      make_directory-Protects v (some t) may =
          bind-Keeps P _ _ (get-Keeps P)
            (λ u. whenever-Keeps P _ _ (perform-Protects (make_dirs t) (may t refl)))
      make_directory-Protects v none may =
          in_temp _ (λ files. bind_volume-Protects _ v.target true (λ _. scratch files v.target))

      call-Protects : (c : VolumeCall) → Mem c calls → Keeps P (volume_call fs job c)
      unfolding add_file_or_directory_volume add_writable_file_volume add_writable_directory_volume
      call-Protects (file_or_directory v t) here =
          either-Keeps P _ _ _ (pure-Keeps P tt)
            (bind_volume-Protects v.resolved v.target false (λ e. cc))
      call-Protects (writable_file v t) here =
          otherwise P job.inplace_update _ _ shared
            (copy_file-Protects v (if_filled t) (λ path e. output path (writable_file v t) here e))
      call-Protects (writable_directory v t) here =
          let may = λ (path : Text) (e : if_filled t ≡ some path).
            output path (writable_directory v t) here e in
          either-Keeps P (starts_with (codes "_:") v.resolved) _ _
            (make_directory-Protects v (if_filled t) may)
            (otherwise P job.inplace_update _ _ shared
              (copy_directory-Protects v (if_filled t) may))
      call-Protects (appended source target true) here =
          bind_volume-Protects source target true (λ _. literal source target here)
      call-Protects (appended source target false) here =
          bind_volume-Protects source target false (λ e. cc)
      call-Protects refusal here = raise-Keeps P _

      add_volumes-Keeps :
          (some_calls : List VolumeCall)
          → ((c : VolumeCall) → Mem c some_calls → Mem c calls)
          → Keeps P (add_volumes fs job some_calls)
      unfolding add_volumes
      add_volumes-Keeps [] sub = pure-Keeps P tt
      add_volumes-Keeps (c ∷ some_calls) sub =
          bind-Keeps P _ _ (call-Protects c (sub c mem-cons_self))
            (λ _. add_volumes-Keeps some_calls (λ d h. sub d (mem-cons_of_mem c h)))

-- Unless a job updates its inputs in place, what add_volumes has it do writes to its temporary
-- directories and the places among the outputs only, and binds all else read-only but the literals
-- that cwltool itself has bound writable. That holds of what is done before an exception, too.
pub add_volumes-Protects :
    (fs : Files) (job : Job) (calls : List VolumeCall) (s : JobState)
    → job.inplace_update ≡ false
    → Ends (λ _. Protects fs job calls s) (Protects fs job calls s) (add_volumes fs job calls s)
add_volumes-Protects fs job calls s shared =
    (add_volumes-Keeps fs job calls s shared calls (λ c h. h)).runs s start
