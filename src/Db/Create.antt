-- ===== src/Db/Create.antt =====
-- `createEmptyDatabase` of db.c, with the answers of SQLite as a parameter: any function of the
-- calls before, of which the newest stands first. Messages, and their memory, are left out.
use traccoon.Db.Calls.{sqlite_ok}
use traccoon.Prelude.{
  ◌≡◌, refl, inl, inr, Bool, Bool-cases, true, false, ◌&&◌, List, [], ◌∷◌, if◌then◌else◌, ℤ, pos,
  ==ℤ, arith,
}

-- `sqlite3_open_v2`, `sqlite3_exec` of each of the two statements, and `sqlite3_close`
pub data SetupCall : Type 0 where
  open_file create_torrent_table create_peers_table close_file : SetupCall

-- `DB_ERROR`
abbrev pub db_error : ℤ
db_error = pos 9001

-- the result, and the calls
unfoldable pub create_empty_database : (List SetupCall → SetupCall → ℤ) → ℤ × List SetupCall
create_empty_database answer =
    if ==ℤ (answer [] open_file) sqlite_ok
    then if ==ℤ (answer (open_file ∷ []) create_torrent_table) sqlite_ok
      then if ==ℤ (answer (create_torrent_table ∷ open_file ∷ []) create_peers_table) sqlite_ok
        then (
          if ==ℤ (answer (create_peers_table ∷ create_torrent_table ∷ open_file ∷ []) close_file)
                sqlite_ok
              then pos 0
              else db_error,
          close_file ∷ create_peers_table ∷ create_torrent_table ∷ open_file ∷ [],
        )
        else (db_error, create_peers_table ∷ create_torrent_table ∷ open_file ∷ [])
      else (db_error, create_torrent_table ∷ open_file ∷ [])
    else (db_error, open_file ∷ [])

-- whether SQLite answered SQLITE_OK to all calls of a history
unfoldable pub all_ok : (List SetupCall → SetupCall → ℤ) → List SetupCall → Bool
all_ok answer [] = true
all_ok answer (c ∷ h) = ==ℤ (answer h c) sqlite_ok && all_ok answer h

-- whether the last call of a history closes the file
abbrev pub is_closed : List SetupCall → Bool
is_closed (close_file ∷ h) = true
is_closed _ = false

-- `createEmptyDatabase` returns 0 exactly if its last call closes the file and each of its calls
-- was answered with SQLITE_OK; it returns DB_ERROR otherwise.
pub create_empty_database-all_ok :
    (answer : List SetupCall → SetupCall → ℤ)
    → (create_empty_database answer).0 ≡ (
        if is_closed (create_empty_database answer).1
          && all_ok answer (create_empty_database answer).1
        then pos 0
        else db_error)
unfolding create_empty_database all_ok
create_empty_database-all_ok answer = elim (Bool-cases (==ℤ (answer [] open_file) sqlite_ok)) [
  | inr fails ↦ rw fails refl
  | inl opened ↦ elim (Bool-cases (==ℤ (answer (open_file ∷ []) create_torrent_table) sqlite_ok)) [
    | inr fails ↦ rw (opened, fails) refl
    | inl torrents ↦
        elim (Bool-cases
          (==ℤ (answer (create_torrent_table ∷ open_file ∷ []) create_peers_table) sqlite_ok)) [
            | inr fails ↦ rw (opened, torrents, fails) refl
            | inl peers ↦ ground (arith, opened, torrents, peers)
          ]
  ]
]
