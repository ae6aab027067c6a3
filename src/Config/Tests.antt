-- ===== src/Config/Tests.antt =====
-- Runs of `Config::validate`.
use oceanraft.Common.{◌≡◌, refl, ok, err}
use oceanraft.Types.Errors.{Error}
use oceanraft.Config.{Config, default_config, validate}

abbrev node_config : Config
node_config = record default_config { node_id = 1 }

node_config_accepted : validate node_config ≡ ok tt
unfolding validate
node_config_accepted = refl

-- The default has no node id.
default_config_refused : validate default_config ≡ err (Error.config_invalid "invalid node id")
unfolding validate
default_config_refused = refl
