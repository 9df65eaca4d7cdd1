-- ===== src/Server/Setup/Ready.antt =====
-- What holds after the server has started.
use drasl.Prelude.{◌≡◌, ◌⊎◌, true, false, List, Bytes}
use drasl.Util.{contains}
use drasl.App.{App}
use drasl.Model.Types.{User}
use drasl.Database.Tables.{Tables, Database}

-- A default administrator is an administrator.
abbrev pub IsPromoted : List Bytes → User → Type 0
IsPromoted names u = (contains names u.username ≡ false) ⊎ (u.is_admin ≡ true)
