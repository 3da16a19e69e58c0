-- ===== src/Clients.antt =====
-- vcrmartin/stubs, the modules for the clients that do not go through `http.client`: each wraps one
-- function of its client.
pub mod Grouping
pub mod Httpx
pub mod Aiohttp
pub mod Tornado
mod Tests
use vcrpy.Prelude.{Bool, Result, false, if◌then◌else◌, is_some, ok, ◌>>=◌}
use vcrpy.Request.{Request}
use vcrpy.Cassette.{write_protected, filter_request}
use vcrpy.Connection.{Tape}

-- cassette.write_protected and cassette.filter_request(vcr_request), as each of them tests it.
unfoldable pub refuses : Tape → Request → Result Bool
refuses c vcr_request =
    if write_protected c
    then (do kept ← filter_request c vcr_request; ok (is_some kept))
    else ok false
