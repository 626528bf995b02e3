-- ===== src/Logger/Files.antt =====
-- The files that the logger (src/simple-ntpd/utils/logger.cpp) touches: a path has its contents, or
-- `none`. The calls of <filesystem> and <fstream> are taken to succeed.
use simple_ntpd.Common.{Bool, true, false, Option, none, some, [], ◌++◌, if◌then◌else◌, length, ℕ}
use simple_ntpd.Common.Text.{Bytes, equal}

abbrev pub FileSystem : Type 0
FileSystem = Bytes → Option Bytes

abbrev pub is_some {ℓ} : {A : Type ℓ} → Option A → Bool
is_some none = false
is_some (some a) = true

unfoldable pub put : Bytes → Option Bytes → FileSystem → FileSystem
put path contents files = λ p. if equal p path then contents else files p

-- `fs::exists`
unfoldable pub exists : Bytes → FileSystem → Bool
exists path files = is_some (files path)

-- `fs::remove`
unfoldable pub remove : Bytes → FileSystem → FileSystem
unfolding put
remove path files = put path none files

-- `fs::rename`: what the new path held is gone.
unfoldable pub rename : Bytes → Bytes → FileSystem → FileSystem
unfolding put
rename old new files = put new (files old) (put old none files)

abbrev pub contents_of : Option Bytes → Bytes
contents_of none = []
contents_of (some s) = s

-- `fs::file_size`
unfoldable pub file_size : Bytes → FileSystem → ℕ
file_size path files = length (contents_of (files path))

-- `std::ofstream(path, std::ios::app) << s`
unfoldable pub append : Bytes → Bytes → FileSystem → FileSystem
unfolding put
append path s files = put path (some (contents_of (files path) ++ s)) files
