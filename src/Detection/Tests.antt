-- ===== src/Detection/Tests.antt =====
-- A configuration with one pinned scanner, and the theorem about it.
use foxhole.Prelude.{Bool, false, some, Text, codes, replicate}
use foxhole.Detection.{DetectionConfig, RulePack, default_scanner, default_detection}

abbrev drive_only : Text → Bool
drive_only path = false

abbrev pack : Text → RulePack
pack id = record {
  id = id;
  version = codes "1.0";
  path = codes "C:\\rules\\base.yar";
  sha256 = replicate 64 b'a';
}

abbrev config : DetectionConfig
config = record default_detection {
  yara = record default_scanner {
    executable = some (codes "C:\\tools\\yara64.exe");
    executable_sha256 = some (replicate 64 b'0');
    rules = some (pack (codes "base"));
    user_rules = some (pack (codes "extra"));
  };
}
