-- ===== src/Main/Version.antt =====
-- calrissian/version.py: the version that is printed.
use calrissian.Prelude.{Option, none, some, ◌++◌}
use calrissian.Text.{Text, codes}

abbrev pub or_unknown : Option Text → Text
or_unknown none = codes "unknown"
or_unknown (some version) = version

-- What the packaging metadata says of a package, or that it is not installed.
module _ (require : Text → Option Text) where
  unfoldable pub package_version : Text → Text
  package_version name = or_unknown (require name)

  unfoldable pub cwltool_version : Text
  unfolding package_version
  cwltool_version = package_version (codes "cwltool")

  unfoldable pub calrissian_version : Text
  unfolding package_version
  calrissian_version = package_version (codes "calrissian")

  unfoldable pub version : Text
  unfolding cwltool_version calrissian_version
  version =
      codes "calrissian "
      ++ calrissian_version
      ++ codes " (cwltool "
      ++ cwltool_version
      ++ codes ")"
