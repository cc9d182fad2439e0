-- ===== src/Config/Validate/Demo.antt =====
-- Functions on texts for the tests, for addresses without a port.
use Prim.Native.String.{◌++◌ as append}
use hole_balancer.Base.{false, true, none}
use hole_balancer.Config.Validate.{Text}

abbrev pub text : Text
text = record {
  trim_space = λ s. s;
  fold = λ s. s;
  contains_any = λ s chars. false;
  has_suffix = λ s suffix. true;
  split_host_port = λ s. none;
  join_host_port = λ host port. append host (append ":" port);
  is_ip = λ s. true;
  is_port = λ s. true;
  show = λ n. "2";
}
