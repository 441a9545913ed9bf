-- ===== src/Job/Runner/Bindings.antt =====
-- The methods of CalrissianCommandLineJob (calrissian/job.py) that `add_volumes` of cwltool calls.
use calrissian.Prelude.{
  Bool, true, false, not, ◌==◌, Option, none, some, List, [], ◌∷◌, ◌++◌, if◌then◌else◌,
}
use calrissian.Text.{Text, codes, starts_with}
use calrissian.Job.Volumes.{
  VolumeBuilder, ends_with_slash, add_volume_binding, add_emptydir_volume,
  add_emptydir_volume_binding,
}
use calrissian.Job.Pod.Build.{if_filled}
use calrissian.Job.Runner.{
  Job, FileOp, make_dirs, make_temp, copy, copy_tree, make_writable, MapperEnt, VolumeCall,
  file_or_directory, writable_file, writable_directory, appended, refusal, returns, raises,
  volume_builder_exception, os_error, workflow_exception, Method, pure, raise, get, modify,
  whenever, ◌>>=◌, ◌>>◌,
}

-- `os.path.join` of two texts.
unfoldable pub join_path : Text → Text → Text
unfolding ends_with_slash starts_with
join_path a b = if starts_with (codes "/") b then b else elim a [
  | [] ↦ b
  | c ∷ t ↦ if ends_with_slash (c ∷ t) then (c ∷ t) ++ b else (c ∷ t) ++ b'/' ∷ b
]

-- `os.path.basename`: the text after the last slash.
abbrev basename_after : Text → Text → Text
basename_after base [] = base
basename_after base (c ∷ t) = if c == b'/' then basename_after t t else basename_after base t

unfoldable pub basename : Text → Text
basename path = basename_after path path

-- The file system: whether a path exists and whether an operation succeeds, after what the job has
-- done, the name of a directory that mkdtemp makes in another, and `os.path.realpath`.
pub record Files : Type 0 where
  pub exists : List FileOp → Text → Bool
  pub succeeds : List FileOp → FileOp → Bool
  pub temp_name : List FileOp → Text → Text
  pub realpath : Text → Text

abbrev pub with_builder : Option VolumeBuilder → Method (Unit {0})
with_builder none = raise volume_builder_exception
with_builder (some b) = modify (λ s. record s { volume_builder = b })

unfoldable pub bind_volume : Text → Text → Bool → Method (Unit {0})
unfolding add_volume_binding
bind_volume source target writable s =
    with_builder (add_volume_binding source target writable s.volume_builder) s

unfoldable pub add_emptydir_volume_and_binding : Text → Text → Method (Unit {0})
unfolding add_emptydir_volume add_emptydir_volume_binding
add_emptydir_volume_and_binding name target s =
    let b = add_emptydir_volume name s.volume_builder in
    with_builder (add_emptydir_volume_binding name target b) (record s { volume_builder = b })

module _ (fs : Files) where
  unfoldable pub perform : FileOp → Method (Unit {0})
  perform op s =
      if fs.succeeds s.files op
      then (returns tt, record s { files = s.files ++ op ∷ [] })
      else (raises os_error, s)

  -- `tempfile.mkdtemp(dir=parent)`
  unfoldable pub mkdtemp : Text → Method Text
  unfolding perform
  mkdtemp parent = do
    s ← get
    perform (make_temp (fs.temp_name s.files parent))
    pure (fs.temp_name s.files parent)

  module _ (job : Job) where
    unfoldable pub add_file_or_directory_volume : MapperEnt → Method (Unit {0})
    unfolding bind_volume starts_with
    add_file_or_directory_volume volume =
        if starts_with (codes "_:") volume.resolved
        then pure tt
        else bind_volume volume.resolved volume.target false

    unfoldable pub copy_file : MapperEnt → Option Text → Method (Unit {0})
    unfolding perform mkdtemp join_path basename bind_volume
    copy_file volume (some host_outdir_tgt) = do
      perform (copy volume.resolved host_outdir_tgt)
      perform (make_writable host_outdir_tgt)
    copy_file volume none = do
      tmpdir ← mkdtemp job.tmpdir
      perform (copy volume.resolved (join_path tmpdir (basename volume.resolved)))
      bind_volume (join_path tmpdir (basename volume.resolved)) volume.target true
      perform (make_writable (join_path tmpdir (basename volume.resolved)))

    unfoldable pub add_writable_file_volume : MapperEnt → Option Text → Method (Unit {0})
    unfolding bind_volume copy_file
    add_writable_file_volume volume host_outdir_tgt =
        if job.inplace_update
        then bind_volume volume.resolved volume.target true
        else copy_file volume (if_filled host_outdir_tgt)

    unfoldable pub make_directory : MapperEnt → Option Text → Method (Unit {0})
    unfolding perform mkdtemp join_path basename bind_volume
    make_directory volume none = do
      tmpdir ← mkdtemp job.tmpdir
      bind_volume (join_path tmpdir (basename volume.target)) volume.target true
    make_directory volume (some host_outdir_tgt) = do
      s ← get
      whenever (not (fs.exists s.files host_outdir_tgt)) (perform (make_dirs host_outdir_tgt))

    unfoldable pub copy_directory : MapperEnt → Option Text → Method (Unit {0})
    unfolding perform mkdtemp join_path basename bind_volume
    copy_directory volume none = do
      tmpdir ← mkdtemp job.tmpdir
      perform (copy_tree volume.resolved (join_path tmpdir (basename volume.resolved)))
      bind_volume (join_path tmpdir (basename volume.resolved)) volume.target true
      perform (make_writable (join_path tmpdir (basename volume.resolved)))
    copy_directory volume (some host_outdir_tgt) = do
      perform (copy_tree volume.resolved host_outdir_tgt)
      perform (make_writable host_outdir_tgt)

    unfoldable pub add_writable_directory_volume : MapperEnt → Option Text → Method (Unit {0})
    unfolding bind_volume make_directory copy_directory starts_with
    add_writable_directory_volume volume host_outdir_tgt =
        if starts_with (codes "_:") volume.resolved
        then make_directory volume (if_filled host_outdir_tgt)
        else if job.inplace_update
        then bind_volume volume.resolved volume.target true
        else copy_directory volume (if_filled host_outdir_tgt)

    abbrev pub volume_call : VolumeCall → Method (Unit {0})
    volume_call (file_or_directory volume _) = add_file_or_directory_volume volume
    volume_call (writable_file volume host_outdir_tgt) =
        add_writable_file_volume volume host_outdir_tgt
    volume_call (writable_directory volume host_outdir_tgt) =
        add_writable_directory_volume volume host_outdir_tgt
    volume_call (appended source target writable) = bind_volume source target writable
    volume_call refusal = raise workflow_exception

    unfoldable pub add_volumes : List VolumeCall → Method (Unit {0})
    add_volumes [] = pure tt
    add_volumes (call ∷ calls) = volume_call call >> add_volumes calls
