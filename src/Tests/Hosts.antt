-- ===== src/Tests/Hosts.antt =====
-- Hosts that two callers add and remove.
use getresolvd.Tests.Samples.{any_ip, to_first}
use getresolvd.Tests.Configs.{some_lines, some_lines-IsPrintable}
use getresolvd.Base.{List, [], ◌∷◌, ◌≡◌, refl, some, codes}
use getresolvd.Errors.{ok}
use getresolvd.Deps.{net_ip4}
use getresolvd.Deps.Sample.{
  sample_names, sample_filter, sample_merge, sample_dialer, first_v4, second_v4,
}
use getresolvd.Hosts.{NameMap, lookup, hosts_lookup}
use getresolvd.Hosts.{hosts}
use getresolvd.Hosts.Contents.{entry}
use getresolvd.Hosts.Written.{file_of, hosts_lookup-line_text}
use getresolvd.Hosts.Runs.{
  Change, add, remove, done, left, right, run, answer_of, hosts_lookup-run,
  hosts_lookup-Interleaving,
}

abbrev www_calls : List Change
www_calls = remove (codes "www") ∷ add (codes "www.") (second_v4 ∷ []) ∷ []

abbrev other_calls : List Change
other_calls = add (codes "other") (first_v4 ∷ []) ∷ remove (codes "other") ∷ []

abbrev all_calls : List Change
all_calls =
    add (codes "other") (first_v4 ∷ [])
    ∷ remove (codes "www")
    ∷ add (codes "www.") (second_v4 ∷ [])
    ∷ remove (codes "other")
    ∷ []

abbrev www_entry : NameMap
www_entry = (codes "www.", first_v4 ∷ []) ∷ []

hosts_lookup-run_example :
    hosts_lookup sample_names sample_merge sample_filter sample_dialer
      (run sample_names all_calls www_entry)
      net_ip4
      (codes "www")
      0
    ≡ answer_of sample_names sample_merge sample_filter sample_dialer
        (some (second_v4 ∷ []))
        net_ip4
        (codes "www")
        0
unfolding lookup
hosts_lookup-run_example =
    hosts_lookup-run sample_names sample_merge sample_filter sample_dialer all_calls www_entry
      net_ip4 (codes "www") 0

hosts_lookup-Interleaving_example :
    hosts_lookup sample_names sample_merge sample_filter sample_dialer
      (run sample_names all_calls www_entry)
      net_ip4
      (codes "www")
      0
    ≡ hosts_lookup sample_names sample_merge sample_filter sample_dialer
        (run sample_names www_calls www_entry)
        net_ip4
        (codes "www")
        0
hosts_lookup-Interleaving_example =
    hosts_lookup-Interleaving sample_names sample_merge sample_filter sample_dialer www_entry
      net_ip4 (codes "www") 0 (right (left (left (right done)))) (refl, (refl, tt))

hosts_lookup-line_text_example :
    (m : NameMap) × (hosts sample_names to_first any_ip (some (file_of some_lines)) ≡ ok m)
    × (hosts_lookup sample_names sample_merge sample_filter sample_dialer m net_ip4
          (codes "web.example")
          0
        ≡ hosts_lookup sample_names sample_merge sample_filter sample_dialer
            (entry sample_names to_first (codes "web.example.") (first_v4 ∷ []))
            net_ip4
            (codes "web.example")
            0)
hosts_lookup-line_text_example =
    hosts_lookup-line_text sample_names any_ip to_first sample_merge sample_filter sample_dialer
      some_lines some_lines-IsPrintable (tt, ((first_v4, refl), (tt, tt))) net_ip4
      (codes "web.example") 0
