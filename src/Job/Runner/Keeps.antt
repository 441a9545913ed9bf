-- ===== src/Job/Runner/Keeps.antt =====
-- A proof rule for the methods of a job (calrissian/job.py), and what all of them keep until the job
-- finishes.
use calrissian.Prelude.{
  refl, Bool, true, false, Bool-cases, Option-cases, inl, inr, Option, none, some, List, [], ◌∷◌,
  ◌++◌, if◌then◌else◌,
}
use calrissian.Text.{Text}
use calrissian.Text.Dict.{TextDict}
use calrissian.K8s.Effects.{Session, Action, ok, err}
use calrissian.K8s.Effects as Client
use calrissian.Job.Volumes.{
  VolumeBuilder, add_volume_binding, add_emptydir_volume, add_emptydir_volume_binding,
}
use calrissian.Job.Volumes.Reach.{Step, binding, emptydir, emptydir_binding}
use calrissian.Job.Pod.Build.{if_filled}
use calrissian.Job.Runner.{
  Job, JobState, VolumeCall, file_or_directory, writable_file, writable_directory, appended,
  refusal, MapperEnt, FileOp, Error, Result, returns, raises, Method, pure, raise, or_raise,
  on_client, from_client, get, modify, and_then, whenever, ◌>>=◌,
}
use calrissian.Job.Runner.Bindings.{
  Files, bind_volume, add_emptydir_volume_and_binding, perform, mkdtemp,
  add_file_or_directory_volume, copy_file, add_writable_file_volume, make_directory, copy_directory,
  add_writable_directory_volume, volume_call, add_volumes,
}

-- How a call ends: what holds of the value and the state, and what holds where it raises.
abbrev pub Ends :
    {A : Type 0} → (A → JobState → Type 0) → (JobState → Type 0) → Result A × JobState → Type 0
Ends Q E (returns a, s) = Q a s
Ends Q E (raises e, s) = E s

-- Where a call starts in `P` it ends in `Q`, or raises in `E`.
pub record Meets {A : Type 0} (P : JobState → Type 0) (m : Method A) (Q : A → JobState → Type 0)
    (E : JobState → Type 0) : Type 0 where
  pub runs : (s : JobState) → P s → Ends Q E (m s)

module _ {A B : Type 0} {E : JobState → Type 0} {Q : A → JobState → Type 0}
    {R : B → JobState → Type 0} where
  and_then-Ends :
      (r : Result A × JobState) (f : A → Method B)
      → Ends Q E r
      → ((a : A) → Meets (Q a) (f a) R E)
      → Ends R E (and_then r.0 f r.1)
  and_then-Ends (returns a, s) f h k = (k a).runs s h
  and_then-Ends (raises e, s) f h k = h

  pub in_turn :
      {P : JobState → Type 0}
      → (m : Method A) (f : A → Method B) → Meets P m Q E
      → ((a : A) → Meets (Q a) (f a) R E)
      → Meets P (m >>= f) R E
  in_turn m f h k = record { runs = λ s p. and_then-Ends (m s) f (h.runs s p) k }

-- Whatever happens, `P` is kept.
abbrev pub Keeps : {A : Type 0} → (JobState → Type 0) → Method A → Type 0
Keeps P m = Meets P m (λ _. P) P

-- A step of the volume builder, and any change of the fields that a job works with, keeps `P`.
pub record IsStable (P : JobState → Type 0) : Type 0 where
  pub session : (s : JobState) (x : Session) → P s → P (record s { session = x })
  pub environment : (s : JobState) (x : TextDict Text) → P s → P (record s { environment = x })
  pub resources : (s : JobState) (x : TextDict Text) → P s → P (record s { resources = x })
  pub files : (s : JobState) (x : List FileOp) → P s → P (record s { files = x })
  pub volumes :
      (s : JobState) (b : VolumeBuilder)
      → Step s.volume_builder b
      → P s
      → P (record s { volume_builder = b })

module _ (P : JobState → Type 0) where
  pub pure-Keeps : {A : Type 0} (a : A) → Keeps P (pure a)
  pure-Keeps a = record { runs = λ s p. p }

  pub raise-Keeps : {A : Type 0} (e : Error) → Keeps {A = A} P (raise e)
  raise-Keeps e = record { runs = λ s p. p }

  pub or_raise-Keeps : {A : Type 0} (e : Error) (x : Option A) → Keeps P (or_raise e x)
  or_raise-Keeps e none = record { runs = λ s p. p }
  or_raise-Keeps e (some a) = record { runs = λ s p. p }

  pub get-Keeps : Keeps P get
  get-Keeps = record { runs = λ s p. p }

  pub modify-Keeps :
      (f : JobState → JobState) → ((s : JobState) → P s → P (f s)) → Keeps P (modify f)
  modify-Keeps f h = record { runs = h }

  pub whenever-Keeps : (b : Bool) (m : Method (Unit {0})) → Keeps P m → Keeps P (whenever b m)
  whenever-Keeps true m h = h
  whenever-Keeps false m h = pure-Keeps tt

  pub either-Keeps :
      {A : Type 0} (b : Bool) (m n : Method A)
      → Keeps P m
      → Keeps P n
      → Keeps P (if b then m else n)
  either-Keeps true m n h k = h
  either-Keeps false m n h k = k

  pub bind-Keeps :
      {A B : Type 0} (m : Method A) (f : A → Method B)
      → Keeps P m
      → ((a : A) → Keeps P (f a))
      → Keeps P (m >>= f)
  bind-Keeps m f h k = in_turn m f h k

  module _ (stable : IsStable P) where
    from_client-Ends :
        {A : Type 0} (r : Client.Result A) (s : JobState) (x : Session)
        → P s
        → Ends (λ _. P) P (from_client r, record s { session = x })
    from_client-Ends (ok a) s x p = stable.session s x p
    from_client-Ends (err e) s x p = stable.session s x p

    pub on_client-Keeps : {A : Type 0} (m : Action A) → Keeps P (on_client m)
    on_client-Keeps m = record {
      runs = λ s p. from_client-Ends (m s.session).0 s (m s.session).1 p;
    }

    pub bind_volume-Keeps :
        (source target : Text) (writable : Bool) → Keeps P (bind_volume source target writable)
    unfolding bind_volume
    bind_volume-Keeps source target writable = record {
      runs = λ s p.
          elim (Option-cases (add_volume_binding source target writable s.volume_builder)) [
            | inl e ↦ rw (e, Ends) p
            | inr (b, e) ↦ rw (e, Ends) (stable.volumes s b (binding source target writable e) p)
          ];
    }

    pub add_emptydir_volume_and_binding-Keeps :
        (name target : Text) → Keeps P (add_emptydir_volume_and_binding name target)
    unfolding add_emptydir_volume_and_binding
    add_emptydir_volume_and_binding-Keeps name target = record {
      runs = λ s p.
          let b = add_emptydir_volume name s.volume_builder in
          let q = stable.volumes s b (emptydir name refl) p in
          elim (Option-cases (add_emptydir_volume_binding name target b)) [
            | inl e ↦ rw (e, Ends) q
            | inr (c, e) ↦
                rw (e, Ends)
                  (stable.volumes (record s { volume_builder = b }) c
                    (emptydir_binding name target e) q)
          ];
    }

    module _ (fs : Files) where
      pub perform-Keeps : (op : FileOp) → Keeps P (perform fs op)
      unfolding perform
      perform-Keeps op = record {
        runs = λ s p. elim (Bool-cases (fs.succeeds s.files op)) [
          | inl e ↦ rw (e, Ends) (stable.files s (s.files ++ op ∷ []) p)
          | inr e ↦ rw (e, Ends) p
        ];
      }

      mkdtemp-Keeps : (parent : Text) → Keeps P (mkdtemp fs parent)
      unfolding mkdtemp
      mkdtemp-Keeps parent =
          bind-Keeps _ _ get-Keeps (λ s. bind-Keeps _ _ (perform-Keeps _) (λ _. pure-Keeps _))

      -- A copy into a new directory, which is then bound.
      copied_and_bound-Keeps :
          (m : Text → Method (Unit {0})) (parent : Text)
          → ((t : Text) → Keeps P (m t))
          → Keeps P (mkdtemp fs parent >>= m)
      copied_and_bound-Keeps m parent h = bind-Keeps _ _ (mkdtemp-Keeps parent) h

      module _ (job : Job) where
        copy_file-Keeps : (v : MapperEnt) (t : Option Text) → Keeps P (copy_file fs job v t)
        unfolding copy_file
        copy_file-Keeps v (some t) = bind-Keeps _ _ (perform-Keeps _) (λ _. perform-Keeps _)
        copy_file-Keeps v none = copied_and_bound-Keeps _ job.tmpdir (λ t.
            bind-Keeps _ _ (perform-Keeps _)
              (λ _. bind-Keeps _ _ (bind_volume-Keeps _ _ true) (λ _. perform-Keeps _)))

        copy_directory-Keeps :
            (v : MapperEnt) (t : Option Text) → Keeps P (copy_directory fs job v t)
        unfolding copy_directory
        copy_directory-Keeps v (some t) = bind-Keeps _ _ (perform-Keeps _) (λ _. perform-Keeps _)
        copy_directory-Keeps v none = copied_and_bound-Keeps _ job.tmpdir (λ t.
            bind-Keeps _ _ (perform-Keeps _)
              (λ _. bind-Keeps _ _ (bind_volume-Keeps _ _ true) (λ _. perform-Keeps _)))

        make_directory-Keeps :
            (v : MapperEnt) (t : Option Text) → Keeps P (make_directory fs job v t)
        unfolding make_directory
        make_directory-Keeps v (some t) =
            bind-Keeps _ _ get-Keeps (λ s. whenever-Keeps _ _ (perform-Keeps _))
        make_directory-Keeps v none =
            copied_and_bound-Keeps _ job.tmpdir (λ t. bind_volume-Keeps _ _ true)

        volume_call-Keeps : (c : VolumeCall) → Keeps P (volume_call fs job c)
        unfolding add_file_or_directory_volume add_writable_file_volume
            add_writable_directory_volume
        volume_call-Keeps (file_or_directory v _) =
            either-Keeps _ _ _ (pure-Keeps tt) (bind_volume-Keeps _ _ false)
        volume_call-Keeps (writable_file v t) =
            either-Keeps _ _ _ (bind_volume-Keeps _ _ true) (copy_file-Keeps v (if_filled t))
        volume_call-Keeps (writable_directory v t) =
            either-Keeps _ _ _ (make_directory-Keeps v (if_filled t)) (
              either-Keeps _ _ _ (bind_volume-Keeps _ _ true)
                (copy_directory-Keeps v (if_filled t)))
        volume_call-Keeps (appended source target writable) =
            bind_volume-Keeps source target writable
        volume_call-Keeps refusal = raise-Keeps _

        pub add_volumes-Keeps : (calls : List VolumeCall) → Keeps P (add_volumes fs job calls)
        unfolding add_volumes
        add_volumes-Keeps [] = pure-Keeps tt
        add_volumes-Keeps (c ∷ calls) =
            bind-Keeps _ _ (volume_call-Keeps c) (λ _. add_volumes-Keeps calls)
