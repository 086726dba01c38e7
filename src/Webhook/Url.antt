-- ===== src/Webhook/Url.antt =====
-- internal/utils/url/url.go: one form for the URLs of a repository.
use burrito.Base.{String, ◌<>◌, none, some, ◌==◌, if◌then◌else◌}
use burrito.Base.Text.{has_prefix, trim_prefix, trim_suffix, cut_at}
use burrito.World.{Runtime}

unfoldable pub remove_git_extension : (input_url : String) → String
remove_git_extension input_url = trim_suffix input_url ".git"

-- The server and the path; the path is empty where there is no colon.
unfoldable pub split_scp_style_url : (input_url : String) → String × String
unfolding remove_git_extension
split_scp_style_url input_url = elim (cut_at 58 input_url) [
  | none ↦ (trim_prefix input_url "git@", "")
  | some (server, repo) ↦ (trim_prefix server "git@", remove_git_extension repo)
]

unfoldable pub normalize_scp_style_url : (input_url : String) → String
unfolding split_scp_style_url
normalize_scp_style_url input_url =
    let (server, repo) = split_scp_style_url input_url in
    if repo == "" then "https://" <> server else "https://" <> (server <> ("/" <> repo))

module _ (rt : Runtime) where
  unfoldable pub normalize_ssh_protocol_url : (input_url : String) → String
  unfolding normalize_scp_style_url remove_git_extension
  normalize_ssh_protocol_url input_url = elim (rt.parse_url input_url) [
    | none ↦ normalize_scp_style_url input_url
    | some (server, path) ↦
        "https://" <> (server <> ("/" <> remove_git_extension (trim_prefix path "/")))
  ]

  unfoldable pub normalize_url : (input_url : String) → String
  unfolding normalize_ssh_protocol_url
  normalize_url input_url =
      if has_prefix input_url "https://"
      then remove_git_extension input_url
      else if has_prefix input_url "http://"
      then remove_git_extension ("https://" <> trim_prefix input_url "http://")
      else if has_prefix input_url "ssh://"
      then normalize_ssh_protocol_url input_url
      else normalize_scp_style_url input_url
