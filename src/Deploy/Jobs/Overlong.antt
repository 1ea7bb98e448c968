-- ===== src/Deploy/Jobs/Overlong.antt =====
-- A branch whose subdomain does not fit its column fails the deployment in the end.
use mathlib.Core.List.{List}
