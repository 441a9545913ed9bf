-- ===== src/K8s/Config.antt =====
-- load_config_get_namespace (calrissian/k8s.py): where a client gets its configuration and namespace.
use calrissian.Prelude.{Option, none, some}
use calrissian.Text.{Text, codes}

-- A loader of the kubernetes package: it loads, raises a ConfigException, or raises otherwise.
pub data Loading : Type 0 where
  loads config_exception other_exception : Loading

-- `namespace_file` is what the file of the service account holds, if it can be read.
pub record Config : Type 0 where
  pub load_incluster_config : Loading
  pub load_kube_config : Loading
  pub namespace_file : Option Text

abbrev pub outside : Loading → Option Text
outside loads = some (codes "default")
outside config_exception = none
outside other_exception = none

abbrev pub namespace_of : Config → Loading → Option Text
namespace_of c loads = c.namespace_file
namespace_of c config_exception = outside c.load_kube_config
namespace_of c other_exception = none

-- `none` is an exception.
unfoldable pub load_config_get_namespace : Config → Option Text
load_config_get_namespace c = namespace_of c c.load_incluster_config
