-- ===== src/Remote.antt =====
-- pkg/clockbridge/remote_forward.go: an agent's side of a registration. url.Parse and the resolver are
-- parameters.
pub mod Url
pub mod Address
pub mod Register
pub mod Dial
pub mod Forward
pub mod Announces
pub mod Laws
pub mod Runs
