-- ===== src/Config/Types.antt =====
-- internal/config/config.go: the configuration and its defaults.
use native.Mathlib.Decide.{ℕ_discrete}
use tidal_syncer.Shared.{
  ℕ, ◌*◌, Bool, true, false, Text, codes, Eq, ◌==◌, text_eq, if◌then◌else◌, [],
}
use tidal_syncer.Shared.Int.{ℤ, pos}
use tidal_syncer.Tidal.Quality.{Quality, hi_res_lossless, lossless}

pub record Paths : Type 0 where
  pub music : Text
  pub config : Text
  pub data_dir : Text

pub record Favorites : Type 0 where
  pub tracks : Bool
  pub albums : Bool
  pub playlists : Bool

pub record Scope : Type 0 where
  pub all : Bool
  pub favorites : Favorites

pub record QualityBand : Type 0 where
  pub request : Quality
  pub floor : Quality

pub record LyricsConfig : Type 0 where
  pub embed : Bool
  pub sidecar : Bool

-- Nanoseconds.
pub record DurationRange : Type 0 where
  pub min : ℤ
  pub max : ℤ

ℤ-discrete : Discrete ℤ
ℤ-discrete = hlevel ℕ_discrete

DurationRange-discrete : Discrete DurationRange
DurationRange-discrete = hlevel ℤ-discrete

instance unfoldable pub range_eq : Eq DurationRange
unfolding DurationRange-discrete ℤ-discrete ℕ_discrete
range_eq = record { dec = DurationRange-discrete }

pub record DaemonTimeWindow : Type 0 where
  pub start : Text
  pub end : Text
  pub min : ℤ
  pub max : ℤ

unfoldable pub delay_range : DaemonTimeWindow → DurationRange
delay_range w = record { min = w.min; max = w.max }

pub record Daemon : Type 0 where
  pub mode : Text
  pub interval : ℤ
  pub polling : DurationRange
  pub time_window : DaemonTimeWindow

pub record TidalAuth : Type 0 where
  pub client_id : Text
  pub client_secret : Text

pub record Log : Type 0 where
  pub level : Text
  pub format : Text

pub record MetricsConfig : Type 0 where
  pub enabled : Bool
  pub address : Text

pub record Config : Type 0 where
  pub paths : Paths
  pub path_template : Text
  pub scope : Scope
  pub quality : QualityBand
  pub lyrics : LyricsConfig
  pub removal_policy : Text
  pub daemon : Daemon
  pub worker_jitter : DurationRange
  pub concurrency : ℤ
  pub tidal_auth : TidalAuth
  pub log : Log
  pub metrics : MetricsConfig

abbrev pub minute : ℕ
minute = 60 * 1_000_000_000

abbrev pub zero_range : DurationRange
zero_range = record { min = pos 0; max = pos 0 }

abbrev pub mode_polling : Text
mode_polling = codes "polling"

abbrev pub mode_time_window : Text
mode_time_window = codes "time_window"

unfoldable pub defaults : Config
defaults = record {
  paths = record {
    music = codes "/app/Music";
    config = codes "/app/config.yaml";
    data_dir = codes "/app/data";
  };
  path_template = codes "{albumartist}/{album}/{track} - {title}.{ext}";
  scope = record {
    all = false;
    favorites = record { tracks = false; albums = false; playlists = false };
  };
  quality = record { request = hi_res_lossless; floor = lossless };
  lyrics = record { embed = true; sidecar = true };
  removal_policy = codes "keep";
  daemon = record {
    mode = mode_polling;
    interval = pos (15 * minute);
    polling = zero_range;
    time_window = record { start = []; end = []; min = pos 0; max = pos 0 };
  };
  worker_jitter = zero_range;
  concurrency = pos 3;
  tidal_auth = record { client_id = []; client_secret = [] };
  log = record { level = codes "info"; format = codes "console" };
  metrics = record { enabled = false; address = codes ":9101" };
}

-- `daemonPollingRange`: the polling range, or the interval twice where none is set.
unfoldable pub polling_range : Daemon → DurationRange
polling_range d =
    if d.polling == zero_range then record { min = d.interval; max = d.interval } else d.polling

unfoldable pub apply_derived_defaults : Config → Config
unfolding polling_range
apply_derived_defaults c = record c {
  daemon = record c.daemon {
    mode = if c.daemon.mode == [] then mode_polling else c.daemon.mode;
    polling = polling_range c.daemon;
  };
}
