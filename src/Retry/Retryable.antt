-- ===== src/Retry/Retryable.antt =====
-- Which errors retry.py retries, and the configurations of its cloud adapters.
use costpilot.Prelude.{◌≡◌, Bool, true, false, arith, leb, if◌then◌else◌}
use costpilot.Retry.{
  ErrorClass, connection_error, timeout_error, rate_limit_exception, sdk_exception, other_exception,
  cloud_provider_exception, Exception, RetryConfig, RetryContext, should_retry,
  is_retryable_csp_error,
}

-- `_AWS_EXCEPTIONS`, `_AZURE_EXCEPTIONS` and `_GCP_EXCEPTIONS`, where the SDK is installed
abbrev pub csp_exceptions : ErrorClass → Bool
csp_exceptions connection_error = true
csp_exceptions timeout_error = true
csp_exceptions rate_limit_exception = true
csp_exceptions (cloud_provider_exception retryable) = true
csp_exceptions sdk_exception = true
csp_exceptions other_exception = false

unfoldable pub aws_retry_config : RetryConfig
aws_retry_config = record {
  max_attempts = 5;
  base_delay = 1000;
  max_delay = 30000;
  exponential_base = 2;
  jitter = true;
  retryable_exceptions = csp_exceptions;
}

unfoldable pub azure_retry_config : RetryConfig
azure_retry_config = record {
  max_attempts = 5;
  base_delay = 3000;
  max_delay = 120000;
  exponential_base = 2;
  jitter = true;
  retryable_exceptions = csp_exceptions;
}

unfoldable pub gcp_retry_config : RetryConfig
gcp_retry_config = record {
  max_attempts = 4;
  base_delay = 1500;
  max_delay = 45000;
  exponential_base = 2;
  jitter = true;
  retryable_exceptions = csp_exceptions;
}

-- The heuristics respect the flag of a `CloudProviderException`, but under a configuration that lists
-- the class the decision does not depend on it: while attempts are left, an error that says it is
-- not retryable is retried.
pub should_retry-ignores_flag :
    (c : RetryContext) (e : Exception) (flag : Bool)
    → c.config.retryable_exceptions (cloud_provider_exception flag) ≡ true
    → e.class ≡ cloud_provider_exception flag
    → (is_retryable_csp_error e ≡ flag)
      × (should_retry c e ≡ (if leb c.config.max_attempts c.attempt then false else true))
unfolding should_retry is_retryable_csp_error
should_retry-ignores_flag c e flag listed class = (ground arith, ground arith)
