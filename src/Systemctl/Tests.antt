-- ===== src/Systemctl/Tests.antt =====
-- Instances of the theorems on systemctl's links and commands.
use sysvkit.Base.{
  ◌≡◌, refl, inl, inr, true, false, bytes_eq, not, ◌&&◌, none, some, [], ◌∷◌, Bytes, codes, ◌==◌,
  if◌then◌else◌,
}
use sysvkit.Systemctl.Links.{
  Target, ours, elsewhere, Entry, found_links, RcDir, link_name, service_manip_rl, our_link,
  manip_scan, manip_entry, manip_finish, start_link,
}
use sysvkit.Systemctl.Links.Enable.{
  has_file, has_link, enabled_entries, IsSound, service_manip_rl_enable,
}
use sysvkit.Systemctl.Commands.{start, is_question, command_main}
use sysvkit.Systemctl.Commands.Services.{all_found, any_found, is_empty, done, command_main-done}
use sysvkit.Systemctl.Commands.Tables.{conforming}

abbrev link : Bytes → Target → Entry
link name target = record { name = name; is_link = true; target = target; unlink_errno = 0 }

-- A directory with a link of a wrong name to the service, and another service's link.
abbrev rc3 : RcDir
rc3 = record {
  opendir_errno = 0;
  entries = link (codes "S85foo") ours ∷ link (codes "S20bar") elsewhere ∷ [];
  symlink_errno = 0;
  junk = false;
}

rc3-IsSound : IsSound rc3
rc3-IsSound = record { opens = refl; plain = ((inl refl, refl), ((inr refl, refl), tt)) }

service_manip_rl_enable_example : service_manip_rl (codes "foo") 3 false true rc3 ≡ (
  found_links (has_link (link_name (codes "foo") 3) rc3.entries),
  enabled_entries (link_name (codes "foo") 3) rc3.entries,
)
unfolding has_file
service_manip_rl_enable_example = service_manip_rl_enable (codes "foo") 3 rc3 rc3-IsSound refl

-- A link of a wrong name is found, and the result is 0.
wrong_name_found :
    service_manip_rl (codes "foo") 3 false true rc3
    ≡ (found_links false, link (codes "S20bar") elsewhere ∷ our_link (codes "S20foo") ∷ [])
unfolding service_manip_rl manip_scan manip_entry manip_finish link_name start_link bytes_eq
wrong_name_found = refl

abbrev enabled_rc3 : RcDir
enabled_rc3 = record rc3 { entries = enabled_entries (link_name (codes "foo") 3) rc3.entries }

command_main-done_example :
    (command_main start true (some (conforming false 2 6 0) ∷ none ∷ []) == 0) ≡ (
      true
      && (if is_question start
          then all_found (λ svc. true) (some (conforming false 2 6 0) ∷ none ∷ [])
            && any_found (done start) (some (conforming false 2 6 0) ∷ none ∷ [])
          else not (is_empty (some (conforming false 2 6 0) ∷ none ∷ []))
            && all_found (done start) (some (conforming false 2 6 0) ∷ none ∷ [])))
command_main-done_example = command_main-done start true (some (conforming false 2 6 0) ∷ none ∷ [])
