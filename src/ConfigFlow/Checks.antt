-- ===== src/ConfigFlow/Checks.antt =====
-- The connection tests (config_flow.py: async_test_xml_connection, async_test_snmp_connection). How the
-- attempt ended is an argument.
use ha_sophos_fw.Prelude.{String, Option, none, some}
use ha_sophos_fw.Client.Errors.{auth_error, access_error, Result, ok, err}

-- The errors that a form shows.
pub data FlowError : Type 0 where
  invalid_auth api_access_denied cannot_connect snmp_cannot_connect unknown : FlowError

-- How SophosClient.test_connection ended; `crashed` is an exception of another kind.
pub data XmlAttempt : Type 0 where
  ended : Result String → XmlAttempt
  crashed : XmlAttempt

-- How SNMPClient.preload and test_connection ended.
pub data SnmpAttempt : Type 0 where
  answered snmp_error crashed_too : SnmpAttempt

-- `async_test_xml_connection`
unfoldable pub test_xml_connection : XmlAttempt → Option FlowError
test_xml_connection (ended (ok host)) = none
test_xml_connection (ended (err auth_error)) = some invalid_auth
test_xml_connection (ended (err (access_error code))) = some api_access_denied
test_xml_connection (ended (err e)) = some cannot_connect
test_xml_connection crashed = some unknown

-- `async_test_snmp_connection`
unfoldable pub test_snmp_connection : SnmpAttempt → Option FlowError
test_snmp_connection answered = none
test_snmp_connection snmp_error = some snmp_cannot_connect
test_snmp_connection crashed_too = some unknown
